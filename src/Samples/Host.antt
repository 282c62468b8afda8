-- ===== src/Samples/Host.antt =====
-- The trigger queue, the writing of files and the snapshot store on small inputs.
use node_box.Prelude.{
  String, ◌≡◌, refl, true, false, none, some, [], ◌∷◌, IsDistinct, has, select, has_false→not,
}
use node_box.TextUtil.{trim_space}
use node_box.Prelude.{ℕ, pos, is_zero, is_negative, ok}
use node_box.Model.Validate.{validate_schedule}
use node_box.Runner.Schedule.{next_schedule_delay, hour}
use node_box.Runner.Schedule.Delays.{IsDelay, next_schedule_delay-IsDelay}
use node_box.Control.{Trigger, poll, webhook}
use node_box.Runner.Queue.{coalesce}
use node_box.Runner.Queue.Coalesced.{IsMerged, coalesce-IsMerged}
use node_box.Build.Generate.{File}
use node_box.Output.Write.{Host, Disk, write}
use node_box.Output.Write.Committed.{IsCommitted, write-IsCommitted}
use node_box.Source.Store.{
  Store, StoreHost, set_pointer, current_pointer, previous_pointer, pointer, gc, refs, has_snapshot,
}
use node_box.Source.Store.Pointers.{IsPointed, set_pointer-IsPointed}
use node_box.Source.Store.Collected.{IsCollected, gc-IsCollected}

abbrev polled : Trigger
polled = record { kind = poll; ref = "abc"; force = false }

abbrev pushed : Trigger
pushed = record { kind = webhook; ref = ""; force = true }

push_outranks_poll :
    coalesce polled (pushed ∷ []) ≡ record { kind = webhook; ref = "abc"; force = true }
unfolding coalesce
push_outranks_poll = refl

coalesce-IsMerged_example : IsMerged polled (pushed ∷ []) (coalesce polled (pushed ∷ []))
coalesce-IsMerged_example = coalesce-IsMerged polled (pushed ∷ [])

abbrev pub host : Host
host = record { unreadable = λ p. false; refuses = λ p. false }

abbrev pub hash : String → String
hash text = text

abbrev file : File
file = record { name = "main"; path = "/out/main.json"; content = "{}\n" }

abbrev disk : Disk
disk = ("/out/main.json", "old") ∷ ("/out/other.json", "kept") ∷ []

write-IsCommitted_example :
    IsCommitted host hash false disk
      (write host hash false disk (file ∷ [])).disk
      (write host hash false disk (file ∷ [])).failed
      (file ∷ [])
write-IsCommitted_example = write-IsCommitted host hash false disk (file ∷ []) (λ i. i, tt)

abbrev pub store_host : StoreHost
store_host = record {
  refuses_pointer = λ p. false;
  refuses_scratch = false;
  refuses_rename = λ r. false;
  keeps = λ r. false;
}

abbrev pub store : Store
store = record {
  snapshots =
      record { ref = "a"; modified = 3; config = some "{}" }
      ∷ record { ref = "b"; modified = 1; config = some "{}" }
      ∷ record { ref = "c"; modified = 2; config = some "{}" }
      ∷ [];
  current = some "b\n";
  previous = none;
}

pointer_is_trimmed : pointer store current_pointer ≡ some "b"
unfolding pointer trim_space has_snapshot has refs
pointer_is_trimmed = refl

oldest_that_is_pinned_stays : refs (gc store_host store 1).snapshots ≡ "a" ∷ "b" ∷ []
unfolding gc refs select has trim_space has_snapshot
oldest_that_is_pinned_stays = refl

refs_differ : IsDistinct (refs store.snapshots)
unfolding refs has
refs_differ =
    (has_false→not "a" ("b" ∷ "c" ∷ []) refl, (has_false→not "b" ("c" ∷ []) refl, (λ i. i, tt)))

set_pointer-IsPointed_example :
    IsPointed store_host store previous_pointer "a"
      (set_pointer store_host store previous_pointer "a")
set_pointer-IsPointed_example = set_pointer-IsPointed store_host store previous_pointer "a"

gc-IsCollected_example : IsCollected store_host store 1 (gc store_host store 1)
gc-IsCollected_example = gc-IsCollected store_host store 1 refs_differ

abbrev half_past : ℕ
half_past = 9000000000000

next_schedule_delay-IsDelay_example :
    IsDelay
      (some (record { type = "hourly"; every = pos 0 }))
      half_past
      (next_schedule_delay (some (record { type = "hourly"; every = pos 0 })) half_past)
    × (is_zero (next_schedule_delay (some (record { type = "hourly"; every = pos 0 })) half_past)
        ≡ false)
    × (is_negative
          (next_schedule_delay (some (record { type = "hourly"; every = pos 0 })) half_past)
        ≡ false)
next_schedule_delay-IsDelay_example =
    next_schedule_delay-IsDelay (some (record { type = "hourly"; every = pos 0 })) half_past

-- A capital letter passes Config.Validate and loses the period.
capital_waits_an_hour :
    next_schedule_delay (some (record { type = "Interval"; every = pos 60 })) half_past ≡ pos hour
unfolding next_schedule_delay
capital_waits_an_hour = refl

capital_is_valid : validate_schedule (record { type = "Interval"; every = pos 60 }) ≡ ok tt
unfolding validate_schedule
capital_is_valid = refl
