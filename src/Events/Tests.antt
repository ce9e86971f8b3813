-- ===== src/Events/Tests.antt =====
-- Two processes and a channel that is lost for a while.
use gemone.Prelude.{◌≡◌, refl, true, false, some, codes, [], ◌∷◌}
use gemone.Config.Types.{InvalidationEntry}
use gemone.Config.Read.{global_entry}
use gemone.Events.Bus.{InvalidationBus, configuration, publish}
use gemone.Events.Link.{Link, wrote, IsLinked}
use gemone.Events.Delivered.{Run, idle, onward, Run-IsLinked}

abbrev hold_days : InvalidationEntry
hold_days = global_entry (codes "rewards.hold") []

abbrev writing : InvalidationBus
writing = record {
  instance_id = 1;
  ever_subscribed = true;
  unannounced = [];
  shutting_down = false;
}

abbrev reading_again : InvalidationBus
reading_again = record writing { instance_id = 2 }

abbrev up : Link
up = record {
  writer = writing;
  reader = reading_again;
  connected = true;
  in_flight = [];
  owed = [];
}

abbrev failed : Link
failed = record up {
  writer = (publish configuration (some hold_days) false writing).0;
  in_flight = [];
  owed = hold_days ∷ [];
}

failed-Run : Run up failed
unfolding publish
failed-Run = onward up failed idle (wrote hold_days false)

Run-IsLinked_example : IsLinked failed
Run-IsLinked_example =
    Run-IsLinked up failed failed-Run (refl, refl, λ e owes. elim (absurd owes) [ ])
  where
    absurd : false ≡ true → ⊥
    absurd h = cc
