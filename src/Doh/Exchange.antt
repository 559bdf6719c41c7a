-- ===== src/Doh/Exchange.antt =====
-- internal/dohproxy/proxy.go: how a query is answered. The attempts of a provider are a parameter.
use faro.Prelude.{
  nat_eq, ℕ, suc, ◌-◌, ◌%◌, Bool, not, ◌&&◌, List, [], ◌∷◌, ◌++◌, Option, none, some, ltb,
  if◌then◌else◌, ◌==◌, length, Result, ok, err,
}
use faro.Strings.{Bytes}
use faro.Doh.{GatewayError, no_providers, server_failed, cancelled}
use faro.Doh.Gateway.{Client, Proxy, clients_of}
use faro.Doh.Messages.{server_failure, response_code}

-- What one query meets: whether its context is alive before an attempt, and what `client.exchange`
-- gives at it.
pub record Attempts : Type 0 where
  pub is_alive : ℕ → Bool
  pub ask : ℕ → Client → Result GatewayError Bytes

abbrev pub drop_clients : ℕ → List Client → List Client
drop_clients n [] = []
drop_clients n (c ∷ l) = let rest = drop_clients (n - 1) l in if n == 0 then c ∷ l else rest

abbrev pub take_clients : ℕ → List Client → List Client
take_clients n [] = []
take_clients n (c ∷ l) = let rest = take_clients (n - 1) l in if n == 0 then [] else c ∷ rest

-- `clients[(start+offset)%len(clients)]` for the offsets in their order.
unfoldable pub rotated : ℕ → List Client → List Client
rotated start l = drop_clients start l ++ take_clients start l

-- The error that an attempt leaves, `none` where its answer is taken.
abbrev pub fault_of : Result GatewayError Bytes → Option GatewayError
fault_of (err e) = some e
fault_of (ok response) = if response_code response == 2 then some server_failed else none

-- The loop; `last` is `lastErr`.
unfoldable pub try_clients : Attempts → ℕ → GatewayError → List Client → Result GatewayError Bytes
unfolding response_code
try_clients a offset last [] = err last
try_clients a offset last (c ∷ l) =
    let answer = a.ask offset c in
    elim (fault_of answer) [
      | none ↦ if a.is_alive offset then answer else err cancelled
      | some e ↦
          let rest = try_clients a (suc offset) e l in
          if a.is_alive offset then rest else err cancelled
    ]

-- `exchange`, with `next` the counter before the call.
unfoldable pub exchange : Attempts → ℕ → Proxy → Result GatewayError Bytes
unfolding try_clients rotated
exchange a next p =
    let l = clients_of p.state in
    if length l == 0
    then err no_providers
    else try_clients a 0 no_providers (rotated (next % length l) l)

-- `responseAdmitted`.
unfoldable pub response_admitted : Attempts → ℕ → Proxy → Bytes → Bytes
unfolding exchange server_failure
response_admitted a next p query = elim (exchange a next p) [
  | err e ↦ server_failure query
  | ok response ↦ response
]

abbrev pub max_concurrent : ℕ
max_concurrent = 256

-- `acquire`: the number of admitted queries, `none` where the query is not admitted.
unfoldable pub acquire : Bool → ℕ → Option ℕ
acquire is_cancelled in_flight =
    if not is_cancelled && ltb in_flight max_concurrent then some (suc in_flight) else none

-- `response`: what goes out.
unfoldable pub response : Bool → ℕ → Attempts → ℕ → Proxy → Bytes → Bytes
unfolding acquire response_admitted server_failure
response is_cancelled in_flight a next p query = elim (acquire is_cancelled in_flight) [
  | none ↦ server_failure query
  | some n ↦ response_admitted a next p query
]
