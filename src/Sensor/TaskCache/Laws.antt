-- ===== src/Sensor/TaskCache/Laws.antt =====
-- The array and the map both offer what the sensor asks of a `taskCache`.
use capsule.Prelude.{
  ℕ, ◌<◌, Bool, true, false, Option, none, some, lt→ltb, ◌==◌, ==_iff, if◌then◌else◌, ◌≡◌, ◌≢◌,
  refl, sym, ap, ◌∙◌, arith, inl, inr, Bool-cases, Option-cases,
}
use capsule.Prelude.Int.{ℤ, pos, negsuc, eqb_ℤ, eqb_ℤ_iff}
use capsule.Prelude.Outcome.{ok, ◌>>=◌}
use capsule.Prelude.Maps.{GoMap, lookup, insert}
use capsule.Prelude.Maps.Laws.{lookup-insert}
use capsule.Sensor.Task.{Task}
use capsule.Sensor.TaskCache.{int_key}
use capsule.Sensor.TaskCache.Array.{Entries, array_cache, array_task_cache_size, index, put}
use capsule.Sensor.TaskCache.Array
use capsule.Sensor.TaskCache.Table.{map_cache, found, change}
use capsule.Sensor.TaskCache.Table
use capsule.Sensor.TaskCache.Contract.{
  Tasks, map_task, changed, inserted, Looked, Wrote, IsTaskCache,
}

-- The PIDs that the array has an entry for.
abbrev pub BelowSize : ℤ → Type 0
BelowSize (pos i) = i < array_task_cache_size
BelowSize (negsuc i) = ⊥

present : Task → Option Task
present t = if eqb_ℤ t.tgid (pos 0) then none else some t

present-some : (t : Task) → t.tgid ≢ pos 0 → present t ≡ some t
unfolding present
present-some t h = elim (Bool-cases (eqb_ℤ t.tgid (pos 0))) [
  | inl e ↦ absurd (h ((eqb_ℤ_iff _ _).0 e))
  | inr e ↦ rw e
]

unfoldable pub array_view : Entries → Tasks
unfolding present
array_view s (pos i) = present (s i)
array_view s (negsuc i) = none

-- An entry that was never inserted has PID 0.
pub ArrayIsValid : Entries → Type 0
ArrayIsValid s = (i : ℕ) → (s i).tgid ≡ pos 0 → (s i).pid ≡ pos 0

put_view :
    (i : ℕ) (t : Task) (s : Entries) (j : ℤ)
    → array_view (put i t s) j ≡ (if eqb_ℤ (pos i) j then present t else array_view s j)
unfolding array_view put
put_view i t s (pos j) = ground arith
put_view i t s (negsuc j) = ground arith

put-IsValid :
    (i : ℕ) (t : Task) (s : Entries)
    → (t.tgid ≡ pos 0 → t.pid ≡ pos 0)
    → ArrayIsValid s
    → ArrayIsValid (put i t s)
unfolding put ArrayIsValid
put-IsValid i t s h v j = elim (Bool-cases (i == j)) [ inl e ↦ rw e h | inr e ↦ rw e (v j) ]

-- A task that keeps its TGID is present as before.
present_map :
    (f : Task → Task) (t : Task) → (f t).tgid ≡ t.tgid → present (f t) ≡ map_task f (present t)
unfolding present
present_map f t h = elim (Bool-cases (eqb_ℤ t.tgid (pos 0))) [
  | inl e ↦ rw (ap (λ z. eqb_ℤ z (pos 0)) h ∙ e, e)
  | inr e ↦ rw (ap (λ z. eqb_ℤ z (pos 0)) h ∙ e, e)
]

changed_view :
    (f : Task → Task) (i : ℕ) (s : Entries) (j : ℤ)
    → ((t : Task) → (f t).tgid ≡ t.tgid)
    → array_view (put i (f (s i)) s) j ≡ changed f (pos i) (array_view s) j
unfolding array_view changed
changed_view f i s (pos j) h = elim (Bool-cases (i == j)) [
  | inl e ↦
      put_view i (f (s i)) s (pos j)
      ∙ rw ((==_iff i j).0 e) ground (arith, present_map f (s j) (h (s j)))
  | inr e ↦ put_view i (f (s i)) s (pos j) ∙ ground arith
]
changed_view f i s (negsuc j) h = put_view i (f (s i)) s (negsuc j) ∙ ground arith

lookup-change :
    (f : Task → Task) (p : ℤ) (m : GoMap ℤ Task) (j : ℤ)
    → lookup j (change f p m) ≡ changed f p (λ i. lookup i m) j
unfolding change changed
lookup-change f p m j = elim (Option-cases (lookup p m)) [
  | inl e ↦ elim (Bool-cases (eqb_ℤ p j)) [
    | inl g ↦ rw (change, e, g, sym ((eqb_ℤ_iff p j).0 g), e)
    | inr g ↦ rw (change, e, g)
  ]
  | inr (t, e) ↦ elim (Bool-cases (eqb_ℤ p j)) [
    | inl g ↦ rw (change, e, lookup-insert p j (f t) m, g, sym ((eqb_ℤ_iff p j).0 g), e)
    | inr g ↦ rw (change, e, lookup-insert p j (f t) m, g)
  ]
]

-- A write of the array at a PID in range, by what it puts there.
array_write :
    (i : ℕ) (t : Task) (s : Entries) (v : Tasks)
    → ArrayIsValid s
    → (t.tgid ≡ pos 0 → t.pid ≡ pos 0)
    → ((j : ℤ) → array_view (put i t s) j ≡ v j)
    → Wrote array_cache BelowSize ArrayIsValid array_view (ok (put i t s)) v
array_write i t s v a h e = (put i t s, refl, put-IsValid i t s h a, λ j. e j)

-- A change of an entry that keeps its PID and TGID.
array_changed :
    (f : Task → Task) (p : ℤ) (s : Entries)
    → ((t : Task) → ((f t).tgid ≡ t.tgid) × ((f t).pid ≡ t.pid))
    → BelowSize p
    → ArrayIsValid s
    → Wrote array_cache BelowSize ArrayIsValid array_view
        (do i ← index p; ok (put i (f (s i)) s))
        (changed f p (array_view s))
unfolding index ArrayIsValid
array_changed f (negsuc i) s k l a = absurd l
array_changed f (pos i) s k l a = rw (lt→ltb i 32768 l) (
    array_write i (f (s i)) s _ a (λ e. (k (s i)).1 ∙ a i (sym (k (s i)).0 ∙ e))
      (λ j. changed_view f i s j (λ t. (k t).0)))

array_looks :
    (p : ℤ) (s : Entries)
    → BelowSize p
    → ArrayIsValid s
    → (r : Task × Bool) × (Array.look_task p s ≡ ok r) × Looked (array_view s p) r
unfolding Array.look_task index array_view present ArrayIsValid
array_looks (negsuc i) s l a = absurd l
array_looks (pos i) s l a = elim (Bool-cases (eqb_ℤ (s i).tgid (pos 0))) [
  | inl e ↦
      rw (lt→ltb i 32768 l, e)
        ((s i, false), refl, (refl, a i ((eqb_ℤ_iff _ _).0 e), (eqb_ℤ_iff _ _).0 e))
  | inr e ↦ rw (lt→ltb i 32768 l, e) ((s i, true), refl, refl)
]

array_inserts :
    (p : ℤ) (t : Task) (s : Entries)
    → BelowSize p
    → ArrayIsValid s
    → t.tgid ≢ pos 0
    → Wrote array_cache BelowSize ArrayIsValid array_view
        (Array.insert_task p t s)
        (inserted p t (array_view s))
unfolding Array.insert_task index inserted
array_inserts (negsuc i) t s l a h = absurd l
array_inserts (pos i) t s l a h = rw (lt→ltb i 32768 l) (
    array_write i t s _ a (λ e. absurd (h e))
      (λ j. put_view i t s j ∙ rw (present-some t h, inserted)))

-- `arrayTaskCache` keeps the contract of `taskCache` for the PIDs below its size: a lookup
-- finds the task held, or reports none with PID and TGID 0, and each write changes its own
-- entry and no other, where a task that is inserted has a TGID.
pub array_cache-IsTaskCache : IsTaskCache array_cache BelowSize ArrayIsValid array_view
unfolding Array.set_task_container_id Array.set_task_credentials Array.set_task_command_line
array_cache-IsTaskCache = record {
  looks = array_looks;
  inserts = array_inserts;
  sets_container_id =
      λ p id s. array_changed (λ t. record t { container_id = id }) p s (λ t. (refl, refl));
  sets_credentials =
      λ p creds s. array_changed (λ t. record t { creds = creds }) p s (λ t. (refl, refl));
  sets_command_line =
      λ p line s. array_changed (λ t. record t { command_line = line }) p s (λ t. (refl, refl));
}

map_looks :
    (p : ℤ) (s : GoMap ℤ Task)
    → (r : Task × Bool) × (Table.look_task p s ≡ ok r) × Looked (lookup p s) r
unfolding Table.look_task
map_looks p s = (found (lookup p s), refl, go (lookup p s))
  where
    go : (o : Option Task) → Looked o (found o)
    go none = (refl, refl, refl)
    go (some t) = refl

-- `mapTaskCache` keeps the contract of `taskCache` for every PID: a lookup finds the task held,
-- or reports none with PID and TGID 0, and each write changes its own entry and no other.
pub map_cache-IsTaskCache :
    IsTaskCache map_cache (λ p. Unit {0}) (λ s. Unit {0}) (λ s j. lookup j s)
unfolding Table.insert_task Table.set_task_container_id Table.set_task_credentials
    Table.set_task_command_line inserted
map_cache-IsTaskCache = record {
  looks = λ p s _ _. map_looks p s;
  inserts = λ p t s _ _ _. (insert p t s, refl, tt, λ j. lookup-insert p j t s);
  sets_container_id =
      λ p id s _ _. (_, refl, tt, λ j. lookup-change (λ t. record t { container_id = id }) p s j);
  sets_credentials =
      λ p creds s _ _. (_, refl, tt, λ j. lookup-change (λ t. record t { creds = creds }) p s j);
  sets_command_line = λ p line s _ _.
      (_, refl, tt, λ j. lookup-change (λ t. record t { command_line = line }) p s j);
}
