-- ===== src/Tests/Again.antt =====
-- Witness of a question that is asked twice.
use dnsbuffer.Prelude.{
  ◌≡◌, refl, false, none, some, arith, leb, if◌then◌else◌, nat_eq, list_eq, ◌+◌, ◌*◌, ◌≤◌,
}
use dnsbuffer.HashMap.{get as find_entry}
use dnsbuffer.HashMap
use dnsbuffer.Text.{str, normalize, trim_end, after_dot}
use dnsbuffer.Text.Walk.{walk}
use dnsbuffer.Message.{Message}
use dnsbuffer.Resolver.{ok}
use dnsbuffer.Hosts
use dnsbuffer.Hosts.{HostsMap}
use dnsbuffer.Cache.{key_eq, from_query, set_id}
use dnsbuffer.Pipeline.{World, handle}
use dnsbuffer.Pipeline.Again
use dnsbuffer.Pipeline.Again.{IsLookedUp}
use dnsbuffer.Cache.{get, entry_cost, message_ttl}
use dnsbuffer.Cache.Budget.{IsValid}
use dnsbuffer.Tests.Fixtures.{plain, ask, answer}
use dnsbuffer.Tests.Flow.{key, question, empty, pipe, echoing, print, not_in_hosts, allowed, key_of}

abbrev answering : World
answering = record echoing { upstream = λ q. some (ok (answer (str "a.b."), none)) }

-- The same question with another id.
abbrev asked_again : Message
asked_again = record (ask (str "a.b.")) {
  metadata = record ((ask (str "a.b.")).metadata) { id = 7 };
}

lookup_empty : IsLookedUp plain empty (ask (str "a.b.")) key
lookup_empty = record {
  question = question (str "a.b.");
  asked = refl;
  missing = not_in_hosts;
  allowed = allowed;
  key_of = key_of;
}

missing_again : Hosts.lookup plain pipe.hosts asked_again ≡ none
unfolding Hosts.lookup Hosts.find walk HashMap.get normalize trim_end after_dot
missing_again = refl

key_again : from_query asked_again ≡ some key
unfolding from_query normalize
key_again = refl

lookup_again : IsLookedUp plain empty asked_again key
lookup_again = record {
  question = question (str "a.b.");
  asked = refl;
  missing = missing_again;
  allowed = allowed;
  key_of = key_again;
}

missed : (get empty.cache key 4660 1_000).1 ≡ none
unfolding get find_entry
missed = refl

empty-IsValid : IsValid (get empty.cache key 4660 1_000).0
unfolding get find_entry
empty-IsValid = record {
  fit = record { counted = refl; within = omega arith; distinct = tt };
  no_overflow = omega arith;
}

sound_empty : (get empty.cache key 4660 1_000).0.poisoned ≡ false
unfolding get find_entry
sound_empty = refl

fits_empty :
    entry_cost plain key (answer (str "a.b.")) ≤ (get empty.cache key 4660 1_000).0.max_bytes
unfolding get find_entry entry_cost
fits_empty = omega arith

handle_again_example :
    ((handle plain print answering empty (ask (str "a.b."))).response ≡ answer (str "a.b."))
    × ((handle plain print echoing
          (handle plain print answering empty (ask (str "a.b."))).after
          asked_again).response
        ≡ set_id 7 (answer (str "a.b.")))
    × ((handle plain print echoing
          (handle plain print answering empty (ask (str "a.b."))).after
          asked_again).refresh
        ≡ (if leb (1_001 + message_ttl (answer (str "a.b.")) * 1_000_000_000) 1_000
            then some (record { key = key; query = asked_again })
            else none))
handle_again_example =
    Again.handle_again plain print answering echoing empty (ask (str "a.b.")) asked_again key
      (answer (str "a.b.")) none lookup_empty lookup_again missed refl refl empty-IsValid
      sound_empty refl fits_empty
