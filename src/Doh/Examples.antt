-- ===== src/Doh/Examples.antt =====
-- Concrete configurations of the gateway.
use faro.Prelude.{
  nat_eq, ◌≡◌, refl, Bool, true, false, ◌&&◌, [], ◌∷◌, Option, none, some, ◌==◌, Result, ok, err,
}
use faro.Strings.{Bytes, bytes_beq, codes}
use faro.Domains.{Ip}
use faro.Doh.{GatewayError, UrlParts, RuntimeConfig, provider, provider_failed}
use faro.Doh.Gateway.{Client, Proxy, reload_config, restore_previous, new_proxy}
use faro.Doh.Generations.{IsTidy, call_reload, call_restore, run, history-IsTidy}
use faro.Doh.Messages.{
  response_code, server_failure, probe_query, validate_query, validate_response,
}
use faro.Doh.Exchange.{Attempts}

-- Every text is an address, and every URL is a good one.
abbrev any_ip : Bytes → Option Ip
any_ip s = some (record { is_v4 = true; text = s })

abbrev any_url : Bytes → Option UrlParts
any_url s = some (record { scheme = codes "https"; hostname = s; port = []; has_user = false })

abbrev quad9 : RuntimeConfig
quad9 = record {
  transport = codes "encrypted";
  upstream_dns = codes "9.9.9.9,149.112.112.112";
  generation = codes "1";
}

abbrev cloudflare : RuntimeConfig
cloudflare = record quad9 { upstream_dns = codes "1.1.1.1" }

history-IsTidy_example :
    IsTidy (
      run any_ip any_url (call_reload quad9 ∷ call_reload cloudflare ∷ call_restore ∷ []) new_proxy)
history-IsTidy_example =
    history-IsTidy any_ip any_url (call_reload quad9 ∷ call_reload cloudflare ∷ call_restore ∷ [])

-- The client of the configuration that was rolled back is closed, the first one is not.
closed0 :
    (run any_ip any_url
      (call_reload quad9 ∷ call_reload cloudflare ∷ call_restore ∷ [])
      new_proxy).closed
    ≡ 1 ∷ []
unfolding reload_config restore_previous bytes_beq
closed0 = refl

abbrev client0 : Client
client0 = record {
  id = 0;
  endpoint = provider (codes "A") (codes "https://a") (codes "10.0.0.1") (codes "10.0.0.2");
}

abbrev client1 : Client
client1 = record client0 { id = 1 }

abbrev answer0 : Bytes
answer0 = 1 ∷ 2 ∷ 128 ∷ 128 ∷ []

abbrev answer_of : Bool → Result GatewayError Bytes
answer_of true = ok answer0
answer_of false = err provider_failed

-- Only the second provider answers.
abbrev attempts0 : Attempts
attempts0 = record { is_alive = λ k. true; ask = λ k c. answer_of (c.id == 1) }

abbrev proxy0 : Proxy
proxy0 = record { state = some (client0 ∷ client1 ∷ []); previous = none; next_id = 2; closed = [] }

failure0 : response_code (server_failure (probe_query 7)) ≡ 2
unfolding response_code server_failure probe_query
failure0 = refl

probe0 :
    (validate_query (probe_query 7)
      && validate_response (probe_query 7) (server_failure (probe_query 7)))
    ≡ true
unfolding validate_query validate_response server_failure probe_query
probe0 = refl
