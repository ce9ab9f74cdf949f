-- ===== src/Sensor/ProcessInfo/NewTask.antt =====
-- `decodeNewTask` of pkg/sensor/process_info.go: the task that it inserts, the container that the
-- task inherits, and the order of parents and children that it keeps.
use mathlib.Core.Path.{subst}
use capsule.Prelude.{
  ℕ, suc, ◌<◌, List, [], Bool, true, false, some, ◌==◌, if◌then◌else◌, ◌≡◌, ◌≢◌, refl, sym, ap, ◌∙◌,
  arith, ◌⊎◌, inl, inr, Bool-cases, bit_and,
}
use capsule.Prelude.Int.{ℤ, pos, eqb_ℤ, eqb_ℤ_iff}
use capsule.Prelude.Outcome.{ok}
use capsule.Api.Value.{Bytes}
use capsule.Sensor.Task.{Task}
use capsule.Sensor.TaskCache.{TaskCache}
use capsule.Sensor.TaskCache.Contract.{Tasks, inserted, IsTaskCache}
use capsule.Sensor.ProcessInfo.{Name, Scalar, Datum, Sample, comm_bytes, new_task, decode_new_task}
use capsule.Sensor.ProcessInfo.Ancestors.{Container, Ranked, process_container_id_lem}

-- A walk ends with a container, or with none.
walk_cases :
    {v : Tasks} {p : ℤ} {r : Bytes × Bool}
    → Container v p r
    → ((r.0 ≢ []) × (r.1 ≡ true)) ⊎ (r ≡ ([], false))
walk_cases (Container.missing a) = inr refl
walk_cases (Container.own a h) = inl (h, refl)
walk_cases (Container.inherits a h w) = walk_cases w

-- No task of the cache has this parent.
abbrev pub Childless : Tasks → ℤ → Type 0
Childless v q = (p : ℤ) (t : Task) → v p ≡ some t → t.ppid ≢ q

module _ (v w : Tasks) (q : ℤ) (n : Task) (added : (j : ℤ) → w j ≡ inserted q n v j) where
  at_new : w q ≡ some n
  unfolding inserted
  at_new = added q ∙ rw ((eqb_ℤ_iff q q).1 refl)

  elsewhere : (j : ℤ) → j ≢ q → w j ≡ v j
  unfolding inserted
  elsewhere j h = elim (Bool-cases (eqb_ℤ q j)) [
    | inl e ↦ absurd (h (sym ((eqb_ℤ_iff q j).0 e)))
    | inr e ↦ added j ∙ rw e
  ]

  -- The walks of the other tasks stay as they were.
  kept : {p : ℤ} {r : Bytes × Bool} → Childless v q → p ≢ q → Container v p r → Container w p r
  kept {p} free h (Container.missing a) = Container.missing (elsewhere p h ∙ a)
  kept {p} free h (Container.own a i) = Container.own (elsewhere p h ∙ a) i
  kept {p} free h (Container.inherits {t} a i c) =
      Container.inherits (elsewhere p h ∙ a) i (kept free (free p t a) c)

  -- The new task has the container that its parent's walk found.
  inherited :
      (r : Bytes × Bool)
      → Childless v q
      → n.ppid ≢ q
      → n.container_id ≡ r.0
      → Container v n.ppid r
      → Container w q r
  inherited (id, b) free h e c = elim (walk_cases c) [
    | inl (i, f) ↦
        subst (λ x. Container w q (x, b)) e (rw f (Container.own at_new (λ z. i (sym e ∙ z))))
    | inr f ↦ Container.inherits at_new (e ∙ ap (λ r. r.0) f) (kept free h c)
  ]

  -- The depth of the new task is one above its parent's.
  deeper : (ℤ → ℕ) → ℤ → ℕ
  deeper depth j = if eqb_ℤ q j then suc (depth n.ppid) else depth j

  deeper_new : (depth : ℤ → ℕ) → deeper depth q ≡ suc (depth n.ppid)
  unfolding deeper
  deeper_new depth = rw ((eqb_ℤ_iff q q).1 refl)

  deeper_else : (depth : ℤ → ℕ) (j : ℤ) → j ≢ q → deeper depth j ≡ depth j
  unfolding deeper
  deeper_else depth j h = elim (Bool-cases (eqb_ℤ q j)) [
    | inl e ↦ absurd (h (sym ((eqb_ℤ_iff q j).0 e)))
    | inr e ↦ rw e
  ]

  new_parent : (p : ℤ) (t : Task) → w p ≡ some t → q ≡ p → t.ppid ≡ n.ppid
  new_parent p t a e = cc (subst (λ z. w z ≡ some n) e at_new)

  order_kept :
      (InRange : ℤ → Type 0) (depth : ℤ → ℕ)
      → Ranked InRange v depth
      → Childless v q
      → n.ppid ≢ q
      → InRange n.ppid
      → Ranked InRange w (deeper depth)
  order_kept InRange depth ranked free h i = record {
    below = λ p t a. elim (Bool-cases (eqb_ℤ q p)) [
      | inl e ↦
          let z : q ≡ p = (eqb_ℤ_iff q p).0 e in
          rw (new_parent p t a z, sym z) omega (arith, deeper_else depth n.ppid h, deeper_new depth)
      | inr e ↦
          let a' : v p ≡ some t = sym (elsewhere p (apart p e)) ∙ a in
          omega (
            arith,
            deeper_else depth t.ppid (free p t a'),
            deeper_else depth p (apart p e),
            ranked.below p t a',
          )
    ];
    closed = λ p t a. elim (Bool-cases (eqb_ℤ q p)) [
      | inl e ↦ rw (new_parent p t a ((eqb_ℤ_iff q p).0 e)) i
      | inr e ↦ ranked.closed p t (sym (elsewhere p (apart p e)) ∙ a)
    ];
  }
    where
      apart : (p : ℤ) → eqb_ℤ q p ≡ false → p ≢ q
      apart p e z = cc ((eqb_ℤ_iff q p).1 (sym z))

-- The fields of a `task/task_newtask` sample.
pub record NewTaskSample (sample : Sample) : Type 0 where
  pub parent : ℤ
  pub child : ℤ
  pub flags : ℕ
  pub chars : List Scalar
  pub command : Bytes
  pub has_parent : sample Name.common_pid ≡ some (Datum.scalar (Scalar.int32 parent))
  pub has_child : sample Name.pid ≡ some (Datum.scalar (Scalar.int32 child))
  pub has_flags : sample Name.clone_flags ≡ some (Datum.scalar (Scalar.uint64 flags))
  pub has_comm : sample Name.comm ≡ some (Datum.array chars)
  pub has_command : comm_bytes chars ≡ ok command

-- A PID that no task of the cache has for a parent, not the sample's own parent, and not 0.
pub record Fresh (v : Tasks) (parent child : ℤ) : Type 0 where
  pub childless : Childless v child
  pub not_parent : parent ≢ child
  pub parent_set : parent ≢ pos 0
  pub child_set : child ≢ pos 0

module _ {S : Type 0} (c : TaskCache S) (InRange : ℤ → Type 0) (IsValid : S → Type 0)
    (view : S → Tasks) (k : IsTaskCache c InRange IsValid view) (s : S) (valid : IsValid s) where
  tgid_set :
      (parent child : ℤ) (flags : ℕ) (command id : Bytes)
      → Fresh (view s) parent child
      → (new_task parent child flags command id).tgid ≢ pos 0
  unfolding new_task
  tgid_set parent child flags command id fresh = elim (Bool-cases (bit_and flags 65536 == 0)) [
    | inl e ↦ rw e fresh.child_set
    | inr e ↦ rw e fresh.parent_set
  ]

  -- With fuel above the parent's depth, `decodeNewTask` returns, for a fresh PID. The cache then holds
  -- the task beside those it held; the task's container is the one that the walk from its parent
  -- finds; and parents still stand below their children, so that the later walks end too.
  pub decode_new_task_lem :
      (depth : ℤ → ℕ) (sample : Sample) (d : NewTaskSample sample) (fuel : ℕ)
      → Ranked InRange (view s) depth
      → InRange d.parent
      → InRange d.child
      → Fresh (view s) d.parent d.child
      → depth d.parent < fuel
      → (s' : S) × (r : Bytes × Bool) × (decode_new_task c fuel sample s ≡ ok s')
        × IsValid s'
        × ((j : ℤ)
            → view s' j
              ≡ inserted d.child (new_task d.parent d.child d.flags d.command r.0) (view s) j)
        × Container (view s) d.parent r
        × Container (view s') d.child r
        × ((depth' : ℤ → ℕ) × Ranked InRange (view s') depth')
  unfolding decode_new_task new_task
  decode_new_task_lem depth sample d fuel ranked i j fresh l =
      let (r, e, w) =
        process_container_id_lem c InRange IsValid view k s valid depth ranked fuel d.parent i l in
      let n : Task = new_task d.parent d.child d.flags d.command r.0 in
      let (s', e', valid', added) =
        k.inserts d.child n s j valid (tgid_set d.parent d.child d.flags d.command r.0 fresh) in
      (
        s',
        r,
        rw (d.has_parent, d.has_child, d.has_flags, d.has_comm, d.has_command, e) e',
        valid',
        added,
        w,
        inherited (view s) (view s') d.child n added r fresh.childless fresh.not_parent refl w,
        (
          deeper (view s) (view s') d.child n added depth,
          order_kept (view s) (view s') d.child n added InRange depth ranked fresh.childless
              fresh.not_parent i,
        ),
      )
