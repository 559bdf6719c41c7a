-- ===== src/Doh/Answers.antt =====
-- internal/dohproxy/proxy.go: a query is answered if any provider answers.
use faro.Prelude.{nat_eq, ℕ, ◌≡◌, false, List, [], ◌∷◌, ◌⊎◌, ◌==◌, Result, ok}
use faro.Strings.{Bytes}
use faro.Doh.{GatewayError}
use faro.Doh.Gateway.{Client}
use faro.Doh.Messages.{response_code}
use faro.Doh.Exchange.{Attempts}

-- Some client of the list answers, whenever it is asked.
abbrev pub Answers : Attempts → Client → Type 0
Answers a c =
    (offset : ℕ) → (r : Bytes) × (a.ask offset c ≡ ok r) × ((response_code r == 2) ≡ false)

-- A response that the client may take for an answer.
abbrev pub IsAnswered : Result GatewayError Bytes → Type 0
IsAnswered result = (r : Bytes) × (result ≡ ok r) × ((response_code r == 2) ≡ false)

abbrev pub Any : (Client → Type 0) → List Client → Type 0
Any P [] = ⊥
Any P (c ∷ l) = P c ⊎ Any P l
