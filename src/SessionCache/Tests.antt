-- ===== src/SessionCache/Tests.antt =====
-- Runs of the session cache, and its theorems at concrete inputs.
use local_mind.Base.{
  ℕ, ◌-◌, ◌≤◌, ◌≡◌, refl, true, List, [], ◌∷◌, ◌++◌, map, none, some, arith, get_or, length, All,
}
use local_mind.SessionCache.{
  SessionEntry, Cache, Call, Reply, fresh_entry, put_entry, put, get, contains, evict_expired,
  clear, search, run,
}
use local_mind.SessionCache.Store.{Unique}
use local_mind.SessionCache.Ideal.{empty, run_ideal}
use local_mind.SessionCache.Refinement
use local_mind.SessionCache.Order
use local_mind.SessionCache.Order.{InOrder}
use local_mind.SessionCache.Invariant

program : Unit {0}
unfolding put get contains evict_expired clear search run run_ideal
program = tt

abbrev start : Cache
start = record { store = []; max_size = 2; default_ttl = 100 }

-- Three keys come in, the first of which is used before the third.
abbrev calls : List (ℕ × Call)
calls =
    (10, Call.puts 1 51 7 none)
    ∷ (20, Call.puts 2 52 7 none)
    ∷ (30, Call.gets 1)
    ∷ (40, Call.puts 3 53 7 none)
    ∷ (50, Call.gets 2)
    ∷ (60, Call.gets 1)
    ∷ []

the_second_goes :
    (run calls start).0
    ≡ Reply.done
      ∷ Reply.done
      ∷ Reply.value (some 51)
      ∷ Reply.done
      ∷ Reply.value none
      ∷ Reply.value (some 51)
      ∷ []
unfolding program
the_second_goes = refl

search_is_newest_first :
    map (λ e. e.key) (search (λ e. true) none 5 70 (run calls start).1).0 ≡ 1 ∷ 3 ∷ []
unfolding program
search_is_newest_first = refl

run-run_ideal_example :
    (run calls (record { store = []; max_size = 6; default_ttl = 100 })).0
    ≡ run_ideal 100 calls empty
run-run_ideal_example = Refinement.run-run_ideal calls 6 100 (omega arith)

run-InOrder_example :
    Unique (run calls start).1.store
    × (length (run calls start).1.store ≤ (run calls start).1.max_size)
    × InOrder (run calls start).1.store
run-InOrder_example =
    Invariant.run-InOrder calls 2 100
      (omega arith, (omega arith, (omega arith, (omega arith, (omega arith, (omega arith, tt))))))

abbrev full : Cache
full = record {
  store = fresh_entry 1 51 7 100 10 ∷ fresh_entry 2 52 7 100 20 ∷ [];
  max_size = 2;
  default_ttl = 100;
}

a_put_evicts_the_oldest :
    let c' = put 3 53 7 none 30 full in
    let all = put_entry 3 53 7 (get_or none full.default_ttl) 30 full.store in
    (length c'.store ≤ full.max_size)
    × ((gone : List SessionEntry) × (all ≡ gone ++ c'.store)
        × All (λ g. All (λ e. g.accessed_at ≤ e.accessed_at) c'.store) gone
        × (length gone ≡ length all - full.max_size))
a_put_evicts_the_oldest =
    Order.put-evicts_oldest 3 53 7 30 none full ((omega arith, tt), (tt, tt))
      (omega arith, (omega arith, tt))

put-get_stale_example : (get 1 200 (put 1 54 7 none 200 full)).0 ≡ none
put-get_stale_example =
    Order.put-get_stale 1 54 7 200 none full (fresh_entry 1 51 7 100 10) refl (omega arith)
      (omega arith)
