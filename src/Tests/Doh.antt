-- ===== src/Tests/Doh.antt =====
-- Witnesses of DNS over HTTPS: a connection that another task has replaced, and a response.
use dnsbuffer.Prelude.{
  ℕ, ◌≡◌, refl, ◌⊎◌, Bool, true, false, none, some, List, [], ◌∷◌, if◌then◌else◌, ◌==◌, nat_eq,
  list_eq,
}
use dnsbuffer.Text.{str}
use dnsbuffer.Message.{IpAddr, v4}
use dnsbuffer.Resolver.{ok}
use dnsbuffer.Upstream.Doh3.{finished, H3State, Shared, Turn, reply, lost, acquire, new_shared}
use dnsbuffer.Upstream.Doh3.Sections.{entered, failed, Round, run_sections}
use dnsbuffer.Upstream.Doh3.Own
use dnsbuffer.Upstream.Doh3.Requests
use dnsbuffer.Upstream.Doh.{DohResolver}
use dnsbuffer.Upstream.Doh.Exchange.{
  connected, H2Round, not_sent, answered, resolve, resolve_h2, h2_from, attempt_h2, on_h2, after_h2,
  on_answer, decode, sender_of, connect_h2, timed,
}
use dnsbuffer.Upstream.Doh.Answers
use dnsbuffer.Tests.Fixtures.{plain, ask}

abbrev ips : List IpAddr
ips = v4 1 ∷ []

-- Handshakes succeed; `closed` says whether the connections are found closed.
abbrev h3_turn : Bool → Turn ℕ ℕ
h3_turn closed = record {
  is_closed = λ c. closed;
  handshake = λ ip. finished (ok 7);
  setup = λ c. finished (ok 8);
}

abbrev used : H3State ℕ ℕ
used = record { generation = 0; conn = 7; sender = 8 }

-- Another task finds the connection closed and makes a new one.
abbrev replaced : Shared ℕ ℕ
replaced =
    run_sections ips (entered (h3_turn true) ∷ [])
      (acquire ips (h3_turn false) (run_sections ips [] new_shared)).0

-- The first request is lost, the second one is answered.
abbrev pub rounds : ℕ → Round ℕ ℕ
rounds n = record {
  before = [];
  turn = h3_turn false;
  send =
      λ s. some (if n == 0 then reply 200 ((1 ∷ []) ∷ (2 ∷ []) ∷ []) none else lost (str "reset"));
  during = failed 0 ∷ [];
  relocks = true;
}

-- The shared sender is dead, and the new one answers.
abbrev pub h2_rounds : ℕ → H2Round ℕ
h2_rounds n = record {
  meanwhile = λ slot. slot;
  dial = λ ip. connected (finished (ok 2));
  send = λ s. if s == 1 then not_sent (str "closed") else answered 200 (finished (ok (5 ∷ [])));
  during = λ slot. slot;
  relocks = true;
}

abbrev doh_resolver : DohResolver ℕ ℕ ℕ ℕ ℕ
doh_resolver = record {
  host = str "d";
  port = 443;
  path = str "/dns-query";
  ips = ips;
  tls_h2 = 0;
  http3 = false;
  timeout_secs = 5;
  h2 = some 1;
  h3 = none;
}

resolved :
    (resolve plain h2_rounds rounds (ask (str "a.b.")) doh_resolver).1
    ≡ finished (ok (ask (str "a.b.")))
unfolding resolve resolve_h2 h2_from attempt_h2 on_h2 after_h2 on_answer decode sender_of connect_h2
    timed
resolved = refl

resolve_example :
    ((ask (str "a.b.")).metadata.id ≡ (ask (str "a.b.")).metadata.id)
    × (((false ≡ true)
          × Answers.Requested plain (ask (str "a.b.")) (ask (str "a.b.")) rounds doh_resolver.h3
          × ((resolve plain h2_rounds rounds (ask (str "a.b.")) doh_resolver).0.h2 ≡ some 1))
        ⊎ ((false ≡ false)
            × Answers.Answered plain (ask (str "a.b.")) (ask (str "a.b.")) ips h2_rounds 2
            × ((resolve plain h2_rounds rounds (ask (str "a.b.")) doh_resolver).0.h3
                ≡ doh_resolver.h3)))
resolve_example =
    Answers.resolve-ok plain (ask (str "a.b.")) (ask (str "a.b.")) rounds h2_rounds doh_resolver
      resolved
