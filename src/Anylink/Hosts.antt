-- ===== src/Anylink/Hosts.antt =====
-- local/LocalInfo.h: the host in an address.
use Prim.Native.Nat.{compare as compare_ℕ, Ordering}
use Prim.Native.Char.{Char, code, len_utf8}
use Prim.Native.String.append
use Prim.Native.String.find
use Prim.Native.String.len
use Prim.Native.String.{len, slice, find, begins, ◌++◌ as ◌<>◌}
use text.Mathlib.TextPositions.{slice-append_left, len-append}
use xds_client.Base.{ℕ, suc, ◌+◌, ◌≤◌, String, Bool, true, false, ◌≡◌, refl, sym, ap, ◌∙◌, arith}
use xds_client.Anylink.Local.{host, full_node_id}

-- A text without a colon.
abbrev pub is_plain : String → Bool
is_plain String.[] = true
is_plain (String.◌∷◌ c s) = elim (compare_ℕ (code c) 58) [
  | Ordering.lt ↦ is_plain s
  | Ordering.eq ↦ false
  | Ordering.gt ↦ is_plain s
]

begins_plain :
    (c : Char) (s rest : String) (n : ℕ)
    → is_plain (String.◌∷◌ c s) ≡ true
    → (begins (String.◌∷◌ c rest) ":" 0 n ≡ n) × (is_plain s ≡ true)
begins_plain c s rest n h = (ground arith, ground arith)

find-plain : (h p : String) → is_plain h ≡ true → find (h <> (":" <> p)) ":" ≡ len h
find-plain String.[] p k =
    ap (λ s. find s ":") (append.nil (":" <> p) ∙ append.cons ":" String.[] p)
    ∙ find.cons ":" (String.[] <> p) ":"
    ∙ sym len.nil
find-plain (String.◌∷◌ c h) p k =
    let (over, rest) =
      begins_plain c h (h <> (":" <> p)) (len_utf8 c + find (h <> (":" <> p)) ":") k in
    ap (λ s. find s ":") (append.cons c h (":" <> p))
    ∙ find.cons c (h <> (":" <> p)) ":"
    ∙ over
    ∙ ap (λ n. len_utf8 c + n) (find-plain h p rest)
    ∙ sym (len.cons c h)

find_missing : (h : String) → is_plain h ≡ true → find h ":" ≡ suc (len h)
find_missing String.[] k = refl
find_missing (String.◌∷◌ c h) k =
    let (over, rest) = begins_plain c h h (len_utf8 c + find h ":") k in
    find.cons c h ":" ∙ over ∙ omega (arith, find_missing h rest, len.cons c h)

host_found :
    (address : String) (i : ℕ)
    → find address ":" ≡ i
    → i ≤ len address
    → host address ≡ slice address 0 i
unfolding host
host_found address i e h = ground (arith, e, h)

host_missing : (address : String) → find address ":" ≡ suc (len address) → host address ≡ address
unfolding host
host_missing address e = ground (arith, e)

-- For a host without a colon: the part of an address `host:port` in front of the first colon is the
-- host again, the host alone is itself the host, and the id of a node is the same with the port and
-- without it.
pub host-append :
    (h p n : String)
    → is_plain h ≡ true
    → (host (h <> (":" <> p)) ≡ h)
      × (host h ≡ h)
      × (full_node_id (h <> (":" <> p)) n ≡ full_node_id h n)
unfolding host full_node_id
host-append h p n k =
    let parted : host (h <> (":" <> p)) ≡ h =
      host_found (h <> (":" <> p)) (len h) (find-plain h p k)
        (omega (arith, len-append h (":" <> p)))
      ∙ slice-append_left h (":" <> p) in
    let whole : host h ≡ h = host_missing h (find_missing h k) in
    (parted, whole, ap (λ a. "sidecar~" <> a <> "~" <> n <> "~" <> "testDNS") (parted ∙ sym whole))
