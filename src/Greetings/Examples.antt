-- ===== src/Greetings/Examples.antt =====
-- Greetings over a connection that works for one name only.
use xds_client.Base.{ℕ, String, [], ◌∷◌, ◌≡◌, ◌==◌}
use xds_client.Greetings.{interactive}
use xds_client.Greetings.Exchange.{wire, interactive-wire}

-- How the code of the example is printed.
abbrev fourteen : ℕ → String
fourteen code = "14"

interactive-wire_example :
    interactive fourteen 2 (wire (λ n. n == "Ann") 14 "unavailable") ("Ann" ∷ "Bob" ∷ [])
    ≡ "Please enter your user name:" ∷ "gRPC returned: " ∷ "Hello Ann!"
      ∷ "Please enter your user name:" ∷ "14: unavailable" ∷ "gRPC failed" ∷ "gRPC returned: "
      ∷ "gRPC failed" ∷ []
interactive-wire_example =
    interactive-wire fourteen (λ n. n == "Ann") 14 "unavailable" 2 ("Ann" ∷ "Bob" ∷ [])
