-- ===== src/Tests/Epochs.antt =====
-- include/SKL/ABIX/RCU/Domain.h: one reader, one writer and one object.
use abix.Prelude.{ℕ, ◌+◌, ◌^◌, ◌<◌, ◌≡◌, ◌≢◌, refl, arith, true, false}
use abix.Rcu.Domain.{
  batched, both_classes, waiting, Domain, put, register_thread, enter_load, enter_store, exit,
  retire_impl, queue, publish_local_batch, advance, begin_advance, reader_passed, readers_passed,
  end_advance, collect, sweep, kept, freed,
}
use abix.Rcu.Steps.{
  Steps, register, load, store, read, unlink, retire, synchronize_until, stay, next,
}
use abix.Rcu.Safety.{initial, held-alive}
use abix.Rcu.Progress.{Ended, waiting-Ended}
use abix.Rcu.Owner.{owns}
use abix.Rcu.Ownership.{owns-single}

abbrev fresh : Domain
fresh = initial (λ o. true)

abbrev entered : Domain
entered = enter_store 1 1 (enter_load 1 (register_thread 1 fresh))

-- The reader 1 holds the object 7.
abbrev reading : Domain
reading = record entered { holds = put entered.holds 1 (put (entered.holds 1) 7 true) }

abbrev unlinked : Domain
unlinked = record reading { linked = put reading.linked 7 false }

-- The writer 2 retired it and advanced the epoch.
abbrev advanced : Domain
advanced = begin_advance 2 ((retire_impl 2 7 true batched true unlinked).1)

abbrev left : Domain
left = exit 1 advanced

run_reading : Steps fresh reading
unfolding register_thread enter_load enter_store
run_reading = next _ _ _ (register fresh 1) (
    next _ _ _ (load (register_thread 1 fresh) 1 refl) (
      next _ _ _ (store (enter_load 1 (register_thread 1 fresh)) 1 1 refl refl)
        (next _ _ _ (read entered 1 7 inside refl) (stay reading))))
  where
    inside : ◌≢◌ {A = ℕ} 1 0
    inside e = omega (arith, e)

joined : (s t u : Domain) → Steps s t → Steps t u → Steps s u
joined s _ u (stay _) more = more
joined _ _ u (next s t v one run) more = next s t u one (joined t v u run more)

run_advanced : Steps fresh advanced
unfolding register_thread enter_load enter_store retire_impl queue
run_advanced = joined fresh reading advanced run_reading (
    next _ _ _ (unlink reading 7) (
      next _ _ _ (retire unlinked 2 7 true batched true refl) (
        next _ _ _ (synchronize_until ((retire_impl 2 7 true batched true unlinked).1) 2 refl small)
          (stay advanced))))
  where
    small : 1 + 1 < 2 ^ 64
    small = omega arith

waits : advanced.task 2 ≡ waiting 1 both_classes
unfolding begin_advance advance publish_local_batch retire_impl queue register_thread enter_load
    enter_store
waits = refl

holds_on : advanced.holds 1 7 ≡ true
unfolding begin_advance advance publish_local_batch retire_impl queue register_thread enter_load
    enter_store
holds_on = refl

all_left : readers_passed 1 left.epoch left.threads ≡ true
unfolding exit begin_advance advance publish_local_batch retire_impl queue register_thread
    enter_load enter_store readers_passed reader_passed
all_left = refl

still_waits : left.task 2 ≡ waiting 1 both_classes
unfolding exit begin_advance advance publish_local_batch retire_impl queue register_thread
    enter_load enter_store
still_waits = refl

-- The reader blocks the writer while it holds the object.
held_up : readers_passed 1 advanced.epoch advanced.threads ≡ false
unfolding begin_advance advance publish_local_batch retire_impl queue register_thread enter_load
    enter_store readers_passed reader_passed
held_up = refl

reclaimed_at_last : (end_advance 2 1 both_classes left).reclaimed 7 ≡ true
unfolding end_advance collect sweep kept freed exit begin_advance advance publish_local_batch
    retire_impl queue register_thread enter_load enter_store
reclaimed_at_last = refl

owning : owns (advanced.task 2) ≡ true
unfolding begin_advance advance publish_local_batch retire_impl queue register_thread enter_load
    enter_store
owning = refl

held-alive_example : advanced.reclaimed 7 ≡ false
held-alive_example = held-alive (λ o. true) advanced 1 7 run_advanced holds_on

owns-single_example : (◌≡◌ {A = ℕ} 2 2) × (advanced.sync ≢ 0)
owns-single_example = owns-single (λ o. true) advanced 2 2 run_advanced owning owning

waiting-Ended_example : Ended left 2 1 both_classes
waiting-Ended_example = waiting-Ended left 2 1 both_classes still_waits all_left
