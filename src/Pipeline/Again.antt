-- ===== src/Pipeline/Again.antt =====
-- What a query finds that an earlier one has left in the cache.
use dnsbuffer.Prelude.{
  ◌+◌, ◌*◌, ◌≤◌, ◌≡◌, refl, ap, ◌∙◌, Bool, true, false, Option, none, some, leb, if◌then◌else◌,
  nat_eq, list_eq,
}
use dnsbuffer.Text.{Text}
use dnsbuffer.Message.{Hickory, Message, Query, first, is_no_error}
use dnsbuffer.Resolver.{ok}
use dnsbuffer.Hosts
use dnsbuffer.Filter.{is_blocked}
use dnsbuffer.Cache.{Cache, CacheKey, from_query, set_id, entry_cost, message_ttl}
use dnsbuffer.Cache
use dnsbuffer.Cache.Budget.{IsValid}
use dnsbuffer.Cache.Lru.{get-put}
use dnsbuffer.Pipeline.Event.{Printers}
use dnsbuffer.Pipeline.Paths.{handle-lookup}
use dnsbuffer.Pipeline.{
  Pipeline, World, prepared_query, resolve_upstream, cached_stage, put_if_no_error, upstream_stage,
  lookup_stage, observed, recorded, handle,
}

-- A query of the key that neither the hosts nor the filter answers.
pub record IsLookedUp (h : Hickory) (p : Pipeline) (q : Message) (key : CacheKey) : Type 0 where
  pub question : Query
  pub asked : first q.queries ≡ some question
  pub missing : Hosts.lookup h p.hosts q ≡ none
  pub allowed : is_blocked p.filter question.name ≡ false
  pub key_of : from_query q ≡ some key

module _ (h : Hickory) (print : Printers) (w : World) (p : Pipeline) (q : Message) (key : CacheKey)
    (up : IsLookedUp h p q key) where
  handle_looked_up :
      let s = lookup_stage h w p q (some key) in
      handle h print w p q ≡ recorded h print w q up.question (observed h p s) s
  handle_looked_up =
      handle-lookup h print w p q up.question up.asked up.missing up.allowed
      ∙ ap
          (λ k.
            let s = lookup_stage h w p q k in recorded h print w q up.question (observed h p s) s)
          up.key_of

  -- A hit.
  pub handle_cached :
      (m : Message) (expired : Bool)
      → (Cache.get p.cache key q.metadata.id w.lookup_at).1 ≡ some (m, expired)
      → ((handle h print w p q).response ≡ m)
        × ((handle h print w p q).refresh
            ≡ (if expired then some (record { key = key; query = q }) else none))
  unfolding recorded observed lookup_stage cached_stage
  handle_cached m expired hit =
      rw handle_looked_up
        (rw (hit, lookup_stage, cached_stage) refl, rw (hit, lookup_stage, cached_stage) refl)

  -- A miss that the upstream answers.
  handle_missed :
      (resp : Message) (name : Option Text)
      → (Cache.get p.cache key q.metadata.id w.lookup_at).1 ≡ none
      → w.upstream (prepared_query h p q) ≡ some (ok (resp, name))
      → is_no_error resp.metadata.response_code ≡ true
      → let c = w.meanwhile (Cache.get p.cache key q.metadata.id w.lookup_at).0 in
        ((handle h print w p q).response ≡ resp)
        × ((handle h print w p q).after.cache ≡ Cache.put h w.alloc c key resp w.store_at)
        × ((handle h print w p q).after.hosts ≡ p.hosts)
        × ((handle h print w p q).after.filter ≡ p.filter)
  unfolding recorded observed lookup_stage upstream_stage resolve_upstream put_if_no_error
  handle_missed resp name miss said fine =
      let answer : resolve_upstream h w p q ≡ some (resp, name) =
        rw (said, resolve_upstream) refl in
      rw handle_looked_up (
        rw (miss, answer, lookup_stage, upstream_stage) refl,
        rw (miss, answer, fine, lookup_stage, upstream_stage, put_if_no_error) refl,
        refl,
        refl,
      )

-- A query that neither the hosts nor the filter answers, that misses the cache, and that the upstream
-- answers with NoError is answered with that response. If then the same question is asked again, by
-- whatever client and with whatever id, and again neither the hosts nor the filter answers it, it is
-- answered with the same response under the new id, whatever the upstream would say by then; and a
-- refresh of the key starts exactly if the time to live of the response is over. The second query is
-- handled by the pipeline that the first one left. It is assumed that the cache in which the response
-- is stored is valid and not poisoned, that there is memory, and that the response fits the budget.
pub handle_again :
    (h : Hickory) (print : Printers) (w w' : World) (p : Pipeline) (q q' : Message) (key : CacheKey)
    (resp : Message) (name : Option Text)
    → IsLookedUp h p q key
    → IsLookedUp h p q' key
    → (Cache.get p.cache key q.metadata.id w.lookup_at).1 ≡ none
    → w.upstream (prepared_query h p q) ≡ some (ok (resp, name))
    → is_no_error resp.metadata.response_code ≡ true
    → IsValid (w.meanwhile (Cache.get p.cache key q.metadata.id w.lookup_at).0)
    → (w.meanwhile (Cache.get p.cache key q.metadata.id w.lookup_at).0).poisoned ≡ false
    → w.alloc 0 ≡ true
    → entry_cost h key resp
      ≤ (w.meanwhile (Cache.get p.cache key q.metadata.id w.lookup_at).0).max_bytes
    → ((handle h print w p q).response ≡ resp)
      × ((handle h print w' (handle h print w p q).after q').response ≡ set_id q'.metadata.id resp)
      × ((handle h print w' (handle h print w p q).after q').refresh ≡ (
          if leb (w.store_at + message_ttl resp * 1_000_000_000) w'.lookup_at
          then some (record { key = key; query = q' })
          else none))
handle_again h print w w' p q q' key resp name up up' miss said fine valid sound memory small =
    let c = w.meanwhile (Cache.get p.cache key q.metadata.id w.lookup_at).0 in
    let p' = (handle h print w p q).after in
    let (answer, stored, hosts, filter) =
      handle_missed h print w p q key up resp name miss said fine in
    let again : IsLookedUp h p' q' key = record {
      question = up'.question;
      asked = up'.asked;
      missing = rw hosts up'.missing;
      allowed = rw filter up'.allowed;
      key_of = up'.key_of;
    } in
    let hit =
      ap (λ x. (Cache.get x key q'.metadata.id w'.lookup_at).1) stored
      ∙ get-put h w.alloc c key resp w.store_at valid sound memory small q'.metadata.id
          w'.lookup_at in
    let (repeated, refreshed) = handle_cached h print w' p' q' key again _ _ hit in
    (answer, repeated, refreshed)
