-- ===== src/Support/Examples.antt =====
-- Runs of the token store, the log buffer and the event hub, and the theorems at these runs.
use mailview.Prelude.{
  ℕ, ◌≤◌, ◌≡◌, refl, true, false, Option, none, some, List, [], ◌∷◌, ◌++◌, map, Bytes, codes, any,
  all, trim_space, arith,
}
use mailview.Support.BufLog.{new, write_all}
use mailview.Support.BufLog.LastLines.{last, write_all-last}
use mailview.Support.Tokens.{Token, set}
use mailview.Support.Tokens.Uses.{Op, check_op, get_op, clean_op, uses, sets, set-uses}
use mailview.Support.Events.{Event, Subscriber, has_room, send, publish}
use mailview.Support.Events.Delivery.{reached, unreached, publish_lem, IsBounded}
use mailview.Prelude.{All}

one_line : 1 ≤ 2
one_line = ground arith

write_all-last_example :
    write_all (codes "a" ∷ codes "b\n" ∷ codes "c" ∷ []) (new 2)
    ≡ some (record {
      max_lines = 2;
      lines = last 2 (map trim_space (codes "a" ∷ codes "b\n" ∷ codes "c" ∷ []));
    })
write_all-last_example = write_all-last 2 (codes "a" ∷ codes "b\n" ∷ codes "c" ∷ []) one_line

abbrev no_tokens : Bytes → Option (Token ℕ)
no_tokens _ = none

abbrev ops : List (Op ℕ)
ops = check_op (codes "x") 5 ∷ clean_op 6 ∷ get_op (codes "x") 7 ∷ check_op (codes "x") 8 ∷ []

not_set : any (sets (codes "x")) ops ≡ false
unfolding any
not_set = refl

set-uses_example :
    (uses true false (codes "x") ops (set (codes "x") 60 42 1 no_tokens) ≤ 15)
    × (uses false true (codes "x") ops (set (codes "x") 60 42 1 no_tokens) ≤ 1)
set-uses_example = set-uses (codes "x") 60 42 1 ops no_tokens not_set

abbrev event : Event
event = record { id = []; type = codes "error"; message = codes "lost" }

abbrev subs : List Subscriber
subs = record { id = codes "a"; queue = [] } ∷ record { id = codes "b"; queue = event ∷ [] } ∷ []

publish_example :
    ((publish event subs).1 ≡ map (send event) (reached subs) ++ unreached subs)
    × ((publish event subs).0 ≡ all has_room subs)
publish_example = publish_lem event subs

subs-IsBounded : All IsBounded subs
subs-IsBounded = (ground arith, (ground arith, tt))

-- A buffer without lines: the first write indexes an empty slice.
no_lines : write_all (codes "a" ∷ []) (new 0) ≡ none
unfolding write_all
no_lines = refl
