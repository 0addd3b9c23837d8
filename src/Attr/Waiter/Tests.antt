-- ===== src/Attr/Waiter/Tests.antt =====
-- Examples for the hand-over of files: tasks 1 and 2 wait, and the files come with task 3.
use termite.Base.{◌≡◌, refl, inl, inr, true, [], ◌∷◌, none, some, lookup, erase, arith, nat_eq}
use termite.Attr.Waiter.{
  empty, closed, returned, Waiter, find_channel, wait_files, wait_channel, release, flush, drop,
}
use termite.Attr.Waiter.Laws.{IsValid, result_of, wait_files-release}

abbrev two_wait : Waiter
two_wait = record { channels = (1, 0) ∷ (2, 1) ∷ []; heap = empty ∷ empty ∷ [] }

two_wait-IsValid : IsValid two_wait
unfolding lookup
two_wait-IsValid = record { ranged = λ id p e. ground arith; apart = λ id id' p e e'. ground arith }

-- The processing failed: task 1 holds its channel, and is told so.
abbrev one_failed : Waiter
one_failed = record { channels = (2, 1) ∷ []; heap = closed ∷ empty ∷ [] }

wait_files-release_example :
    (wait_channel (some 0) one_failed ≡ result_of true)
    × (find_channel 1 one_failed ≡ none)
    × (wait_channel (find_channel 1 one_failed) one_failed ≡ returned)
    × (find_channel 3 one_failed ≡ none)
unfolding wait_files release flush drop find_channel lookup erase
wait_files-release_example =
    wait_files-release true (3 ∷ 1 ∷ []) 3 two_wait one_failed 1 0 two_wait-IsValid refl refl
      (λ e. ground arith) (inr (inl refl))
