-- ===== src/Greetings/Exchange.antt =====
-- schema: the client and the server of the greetings together.
use Prim.Native.String.{◌++◌ as ◌<>◌}
use text.Mathlib.Text.{starts_with}
use text.Mathlib.TextLemmas.{append_assoc}
use text.Mathlib.TextPositions.{starts_with-append}
use xds_client.Base.{
  ℕ, zero, suc, String, Bool, true, false, List, [], ◌∷◌, ◌++◌, ◌==◌, eq_iff, ◌≡◌, refl, sym, ap,
  ◌∙◌, arith, Bool-cases, inl, inr, if◌then◌else◌,
}
use xds_client.Greetings.{
  HelloRequest, HelloReply, Status, failed, serve_hello, say_hello, interactive,
}

-- A connection to the server that fails for some names, with a code and a text.
abbrev pub wire : (String → Bool) → ℕ → String → HelloRequest → HelloReply → Status × HelloReply
wire works code text request reply =
    if works request.name then serve_hello request reply else (failed code text, reply)

-- The greeting of a name.
abbrev pub greeting : String → String
greeting user = ("Hello " <> user) <> "!"

greeting-starts : (user : String) → starts_with (greeting user) "Hello " ≡ true
greeting-starts user =
    ap (λ s. starts_with s "Hello ") (append_assoc "Hello " user "!")
    ∙ starts_with-append "Hello " (user <> "!")

greeting-ne-failed : (user : String) → greeting user ≡ "gRPC failed" → ⊥
greeting-ne-failed user h =
    let no : starts_with "gRPC failed" "Hello " ≡ false = refl in
    absurd (ground (arith, sym (ap (λ s. starts_with s "Hello ") h) ∙ greeting-starts user, no))

greeting-eq-false : (user : String) → (greeting user == "gRPC failed") ≡ false
greeting-eq-false user = elim (Bool-cases (greeting user == "gRPC failed")) [
  | inl e ↦ absurd (greeting-ne-failed user ((eq_iff (greeting user) "gRPC failed").0 e))
  | inr e ↦ e
]

-- What `SayHello` prints of a failure.
abbrev pub notice : (ℕ → String) → ℕ → String → String
notice digits code text = (digits code <> ": ") <> text

module _ (digits : ℕ → String) (works : String → Bool) (code : ℕ) (text : String) where
  say_hello_works :
      (user : String)
      → works user ≡ true
      → say_hello digits (wire works code text) user ≡ ([], greeting user)
  unfolding say_hello serve_hello
  say_hello_works user e = ground (arith, e)

  say_hello_fails :
      (user : String)
      → works user ≡ false
      → say_hello digits (wire works code text) user ≡ (notice digits code text ∷ [], "gRPC failed")
  unfolding say_hello serve_hello
  say_hello_fails user e = ground (arith, e)

  -- What one round is to print for a name.
  abbrev pub round : String → List String
  round user =
      "Please enter your user name:"
      ∷ (if works user
          then "gRPC returned: " ∷ greeting user ∷ []
          else notice digits code text ∷ "gRPC failed" ∷ "gRPC returned: " ∷ "gRPC failed" ∷ [])

  -- What the rounds are to print: when the input has ended, the name is empty.
  abbrev pub rounds : ℕ → List String → List String
  rounds zero lines = []
  rounds (suc n) [] = round "" ++ rounds n []
  rounds (suc n) (user ∷ lines) = round user ++ rounds n lines

  -- A round that is followed by others.
  printed_round :
      (user : String) (rest : List String)
      → (let (printed, reply) = say_hello digits (wire works code text) user in
          let more = "gRPC returned: " ∷ reply ∷ rest in
          "Please enter your user name:" ∷ printed
          ++ (if reply == "gRPC failed" then "gRPC failed" ∷ more else more))
        ≡ round user ++ rest
  printed_round user rest = elim (Bool-cases (works user)) [
    | inl e ↦ rw (say_hello_works user e, e, greeting-eq-false user) refl
    | inr e ↦ rw (say_hello_fails user e, e) refl
  ]

  -- Over a connection to the server that works for some names and fails for the others with a code and
  -- a text, each round of interativeGRPC prints the prompt and then, if the call works, the greeting of
  -- the name that was read, and if it fails, the line with the code and the text, the notice of the
  -- failure and the failure text; a name is never taken for a failure. When the input has ended, the
  -- rounds go on with the empty name. How a code is printed is given.
  pub interactive-wire :
      (n : ℕ) (lines : List String)
      → interactive digits n (wire works code text) lines ≡ rounds n lines
  unfolding interactive
  interactive-wire zero lines = refl
  interactive-wire (suc n) [] =
      printed_round "" (interactive digits n (wire works code text) [])
      ∙ ap (λ l. round "" ++ l) (interactive-wire n [])
  interactive-wire (suc n) (user ∷ lines) =
      printed_round user (interactive digits n (wire works code text) lines)
      ∙ ap (λ l. round user ++ l) (interactive-wire n lines)
