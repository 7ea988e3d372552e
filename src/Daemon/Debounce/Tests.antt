-- ===== src/Daemon/Debounce/Tests.antt =====
-- Two quick events of a path, and one of another.
use scriptum.Prelude.{String, List, [], ◌∷◌, ◌≡◌, refl, arith, string_eq}
use scriptum.Prelude.HashMap.{Unique-insert}
use scriptum.Prelude.Numbers.{Instant}
use scriptum.Daemon.Debounce.{RawFsEvent, Debouncer, with_millis, new, default_debounce_ms, push_at}
use scriptum.Daemon.Debounce.Delivery.{
  Op, pushes, drains, run, deliveries, delivered_once, pushed_delivered,
}

data Kind : Type 0 where
  created : Kind
  modified : Kind

abbrev start : Debouncer String Kind
start = new default_debounce_ms

abbrev event : RawFsEvent String Kind
event = record { kind = modified; path = "a.md" }

abbrev other : RawFsEvent String Kind
other = record { kind = created; path = "b.md" }

abbrev before : Debouncer String Kind
before = push_at (record event { kind = created }) 10 start

abbrev ops : List (Instant × Op String Kind)
ops = (70, pushes other) ∷ (120, drains) ∷ (170, drains) ∷ (300, drains) ∷ []

pushed_delivered_example :
    deliveries "a.md" (run ((60, pushes event) ∷ ops) before) ≡ delivered_once event 160 ops
pushed_delivered_example =
    pushed_delivered event 60 before ops (Unique-insert "a.md" _ [] tt) (omega arith)
      ((λ e. let z = (string_eq.test_iff "b.md" "a.md").1 e in cc), tt)

at_170 : delivered_once event 160 ops ≡ (170, event) ∷ []
unfolding delivered_once
at_170 = refl

clamped : with_millis 7 ≡ 50
clamped = omega arith
