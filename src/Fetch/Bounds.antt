-- ===== src/Fetch/Bounds.antt =====
-- The size of what is fetched, and where it comes from.
use mathlib.Core.List.{append-nil, append_assoc}
use dnsbuffer.Prelude.{
  ℕ, zero, suc, ◌+◌, ◌≤◌, ◌<◌, ◌≡◌, refl, ap, ◌∙◌, ◌⊎◌, inl, inr, Bool, true, Option, none, some,
  List, [], ◌∷◌, ◌++◌, arith, ltb, Bool-cases, Option-cases, nat_eq, list_eq, length, length-append,
  All,
}
use dnsbuffer.Text.{Text}
use dnsbuffer.Resolver.{Result, ok, err, is_ok, Result-cases}
use dnsbuffer.Fetch.{
  port_of, target_ips, connect_first, request_path, Net, Uri, Response, Request, Fetched, redirect,
  body, read_body, on_response, request_to, fetch_once, fetch_rounds, fetch_url, max_body,
  max_redirects, https_of,
}

-- The data of the frames, in order.
pub data_of : List (Result (Option (List ℕ))) → List ℕ
data_of [] = []
data_of (ok (some chunk) ∷ fs) = chunk ++ data_of fs
data_of (ok none ∷ fs) = data_of fs
data_of (err _ ∷ fs) = data_of fs

read_body_lem :
    (got : List ℕ) (fs : List (Result (Option (List ℕ)))) (bytes : List ℕ)
    → length got ≤ max_body
    → read_body got fs ≡ ok bytes
    → (bytes ≡ got ++ data_of fs) × (length bytes ≤ max_body) × All (λ f. is_ok f ≡ true) fs
unfolding read_body data_of
read_body_lem got [] bytes small e = (ground (arith, e, append-nil got), ground (arith, e), tt)
read_body_lem got (err x ∷ fs) bytes small e = absurd (ground (arith, e))
read_body_lem got (ok none ∷ fs) bytes small e =
    let rest = read_body_lem got fs bytes small e in (rest.0, rest.1, (refl, rest.2))
read_body_lem got (ok (some chunk) ∷ fs) bytes small e =
    elim (Bool-cases (ltb max_body (length got + length chunk))) [
      | inl t ↦ absurd (ground (arith, rw t at e))
      | inr f ↦
          let more = length-append got chunk in
          let rest = read_body_lem (got ++ chunk) fs bytes (ground (arith, f, more)) (rw f at e) in
          (rest.0 ∙ append_assoc got chunk (data_of fs), rest.1, (refl, rest.2))
    ]

-- A body that a server gave with a status of success, whole and within the limit.
pub record IsBody (net : Net) (bytes : List ℕ) : Type 0 where
  pub request : Request
  pub response : Response
  pub given : net.send_request request ≡ ok response
  pub succeeded : (200 ≤ response.status) × (response.status < 300)
  pub whole : bytes ≡ data_of response.frames
  pub unbroken : All (λ f. is_ok f ≡ true) response.frames
  pub bounded : length bytes ≤ max_body

on_response_lem :
    (net : Net) (https : Bool) (host : Text) (port : ℕ) (resp : Response) (bytes : List ℕ)
    → on_response net https host port resp ≡ ok (body bytes)
    → (200 ≤ resp.status) × (resp.status < 300) × (read_body [] resp.frames ≡ ok bytes)
unfolding on_response
on_response_lem net https host port resp bytes e = elim (Result-cases (read_body [] resp.frames)) [
  | inl (b, r) ↦ ground (arith, e, r)
  | inr (x, r) ↦ ground (arith, e, r)
]

request_to-IsBody :
    (net : Net) (uri : Uri) (https : Bool) (host : Text) (bytes : List ℕ)
    → request_to net uri https host ≡ ok (body bytes)
    → IsBody net bytes
unfolding request_to
request_to-IsBody net uri https host bytes e =
    let port = port_of uri https in
    elim (Result-cases (target_ips net host)) [
      | inr (x, f) ↦ ground (arith, rw (f, request_to) at e)
      | inl (ips, f) ↦ elim (Result-cases (connect_first net none ips port)) [
        | inr (x, g) ↦ ground (arith, rw (f, g, request_to) at e)
        | inl (ip, g) ↦
            let sent : Request = record {
              https = https;
              ip = ip;
              host = host;
              port = port;
              path = request_path uri;
            } in
            elim (Result-cases (net.send_request sent)) [
              | inr (x, h) ↦ ground (arith, rw (f, g, h, request_to) at e)
              | inl (resp, h) ↦
                  let end =
                    on_response_lem net https host port resp bytes
                      (rw (f, g, h, request_to) at e) in
                  let got = read_body_lem [] resp.frames bytes (omega arith) end.2 in
                  record {
                    request = sent;
                    response = resp;
                    given = h;
                    succeeded = (end.0, end.1);
                    whole = got.0;
                    unbroken = got.2;
                    bounded = got.1;
                  }
            ]
      ]
    ]

fetch_once-IsBody :
    (net : Net) (current : Text) (bytes : List ℕ)
    → fetch_once net current ≡ ok (body bytes)
    → IsBody net bytes
unfolding fetch_once
fetch_once-IsBody net current bytes e = elim (Result-cases (net.parse_uri current)) [
  | inr (x, f) ↦ ground (arith, rw (f, fetch_once) at e)
  | inl (uri, f) ↦ elim (Option-cases (https_of uri)) [
    | inl g ↦ ground (arith, rw (f, g, fetch_once) at e)
    | inr (https, g) ↦ elim (Option-cases uri.host) [
      | inl h ↦ ground (arith, rw (f, g, h, fetch_once) at e)
      | inr (host, h) ↦ request_to-IsBody net uri https host bytes (rw (f, g, h, fetch_once) at e)
    ]
  ]
]

ok_injective : (b c : List ℕ) → ok b ≡ ok c → b ≡ c
ok_injective b c e = ground (arith, e)

Fetched-cases :
    (r : Result Fetched)
    → ((b : List ℕ) × (r ≡ ok (body b)))
      ⊎ ((next : Text) × (r ≡ ok (redirect next)))
      ⊎ ((x : Text) × (r ≡ err x))
Fetched-cases (ok (body b)) = inl (b, refl)
Fetched-cases (ok (redirect next)) = inr (inl (next, refl))
Fetched-cases (err x) = inr (inr (x, refl))

fetch_rounds-IsBody :
    (net : Net) (n : ℕ) (current : Text) (bytes : List ℕ)
    → fetch_rounds net n current ≡ ok bytes
    → IsBody net bytes
unfolding fetch_rounds
fetch_rounds-IsBody net zero current bytes e = ground (arith, e)
fetch_rounds-IsBody net (suc n) current bytes e = elim (Fetched-cases (fetch_once net current)) [
  | inl (b, f) ↦
      fetch_once-IsBody net current bytes
        (f ∙ ap (λ b. ok (body b)) (ok_injective b bytes (rw (f, fetch_rounds) at e)))
  | inr (inl (next, f)) ↦ fetch_rounds-IsBody net n next bytes (rw (f, fetch_rounds) at e)
  | inr (inr (x, f)) ↦ ground (arith, rw (f, fetch_rounds) at e)
]

-- If a fetch succeeds, then some server answered a request with a status of success, what is
-- fetched is the data of that response's frames in order, none of which was an error, and it is
-- within the limit of 20 MiB.
pub fetch_url-IsBody :
    (net : Net) (url : Text) (bytes : List ℕ) → fetch_url net url ≡ ok bytes → IsBody net bytes
unfolding fetch_url
fetch_url-IsBody net url bytes e = fetch_rounds-IsBody net (suc max_redirects) url bytes e
