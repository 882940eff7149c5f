-- ===== src/Garbage/Safety.antt =====
-- What `collectGarbage` leaves of the store.
use Prim.Native.String.{String, ◌++◌ as ◌<>◌}
use text.Mathlib.Text.{◌==◌ as str_eq, starts_with}
use text.Mathlib.TextEquality.{eq_iff}
use text.Mathlib.TextPositions.{starts_with-append}
use satchel.Base.{
  ℕ, zero, suc, ◌+◌, ◌≡◌, refl, ap, ◌∙◌, Bool, true, false, not, ◌&&◌, ◌||◌, List, [], ◌∷◌, ◌++◌,
  arith, ltb, ◌==◌, if◌then◌else◌, take, drop, Option, Bool-cases, Option-cases, inl, inr,
}
use satchel.Volume.{volume_format}
use satchel.ObjectStore.{Memory, find_object, put_if_absent, delete, present}
use satchel.ObjectStore.Swap.{find_object-drop_keys, find_object-store_object}
use satchel.Garbage.{
  GcRecord, GcCodec, GcError, member, is_immutable, Sweep, sweep_objects, Sweeping, sweep_record,
  gc_prefix, sweep_key, sweep_keys, objects_per_record, write_records,
}

-- The object of a key is as before.
abbrev pub Same : String → Memory → Memory → Type 0
Same key m m' = find_object key m'.objects ≡ find_object key m.objects

delete-Same :
    (key other : String) (m : Memory) → str_eq key other ≡ false → Same key m (delete m other)
unfolding delete
delete-Same key other m h = find_object-drop_keys (λ k. str_eq k other) key m.objects ∙ (rw h refl)

put_if_absent-Same :
    (key other : String) (body : List ℕ) (m : Memory)
    → str_eq other key ≡ false
    → Same key m (put_if_absent m other body).0
unfolding put_if_absent
put_if_absent-Same key other body m h =
    elim (Bool-cases (present (find_object other m.objects) && not m.unconditional)) [
      | inl e ↦ rw e refl
      | inr e ↦ rw e (find_object-store_object m other key body ∙ (rw h refl))
    ]

-- Keys that differ in a test are different.
apart :
    (p : String → Bool) (key other : String)
    → p key ≡ true
    → p other ≡ false
    → str_eq other key ≡ false
apart p key other h k = elim (Bool-cases (str_eq other key)) [
  | inl e ↦ let q : other ≡ key = (eq_iff other key).0 e in absurd (cc (ap p q, h, k))
  | inr e ↦ e
]

module _ (key : String) (w : Sweeping) (kept : member key w.keep ≡ true)
    (object : starts_with key (gc_prefix w.prefix) ≡ false) where
  sweep_objects-Same :
      (keys : List String) (s : Sweep)
      → Same key s.memory (sweep_objects w.keep w.prefix keys s).memory
  unfolding sweep_objects
  sweep_objects-Same [] s = refl
  sweep_objects-Same (k ∷ ks) s =
      elim (Bool-cases (member k w.keep || not (is_immutable w.prefix k))) [
        | inl e ↦ rw (e, sweep_objects) (sweep_objects-Same ks s)
        | inr e ↦
            rw (e, sweep_objects)
              (sweep_objects-Same ks
                  (record s { memory = delete s.memory k; deleted = k ∷ s.deleted })
                ∙ delete-Same key k s.memory
                    (apart (λ x. not (member x w.keep)) k key (ground arith) (rw kept refl)))
      ]

  sweep_record-Same :
      (k : String) (r : GcRecord) (s : Sweep)
      → starts_with k (gc_prefix w.prefix) ≡ true
      → Same key s.memory (sweep_record w k r s).0.memory
  unfolding sweep_record
  sweep_record-Same k r s h =
      pick
        (not (str_eq r.format volume_format)
          || not (str_eq r.volume_id w.volume_id)
          || (r.created_at == 0))
        _ _ refl
        (pick (ltb w.now (r.created_at + w.grace)) _ _ refl (
          pick (not (w.held s.memory)) _ _ refl (
            delete-Same key k
              (sweep_objects w.keep w.prefix r.objects
                (record s { marked = r.objects ++ s.marked })).memory
              (apart (λ x. starts_with x (gc_prefix w.prefix)) k key h object)
            ∙ sweep_objects-Same r.objects (record s { marked = r.objects ++ s.marked }))))
    where
      pick :
          (t : Bool) (x y : Sweep × Option GcError)
          → Same key s.memory x.0.memory
          → Same key s.memory y.0.memory
          → Same key s.memory (if t then x else y).0.memory
      pick true x y a b = a
      pick false x y a b = b

  sweep_key-Same :
      (g : GcCodec) (k : String) (s : Sweep) → Same key s.memory (sweep_key w g k s).0.memory
  unfolding sweep_key
  sweep_key-Same g k s = elim (Bool-cases (starts_with k (gc_prefix w.prefix))) [
    | inr e ↦ rw e refl
    | inl e ↦ elim (Option-cases (find_object k s.memory.objects)) [
      | inl f ↦ rw (e, f) refl
      | inr (o, f) ↦ elim (Option-cases (g.record_of o.content)) [
        | inl x ↦ rw (e, f, x) refl
        | inr (r, x) ↦ rw (e, f, x) (sweep_record-Same k r s e)
      ]
    ]
  ]

  pub sweep_keys-Same :
      (g : GcCodec) (ks : List String) (s : Sweep)
      → Same key s.memory (sweep_keys w g ks s).0.memory
  unfolding sweep_keys
  sweep_keys-Same g [] s = refl
  sweep_keys-Same g (k ∷ ks) s =
      let s' = (sweep_key w g k s).0 in
      elim (Option-cases (sweep_key w g k s).1) [
        | inr (x, e) ↦ rw (e, sweep_keys) (sweep_key-Same g k s)
        | inl e ↦ rw (e, sweep_keys) (sweep_keys-Same g ks s' ∙ sweep_key-Same g k s)
      ]

  pub write_records-Same :
      (g : GcCodec) (now fuel : ℕ) (ks : List String) (m : Memory)
      → Same key m (write_records g w.prefix w.volume_id now fuel ks m)
  unfolding write_records
  write_records-Same g now zero ks m = refl
  write_records-Same g now (suc fuel) [] m = refl
  write_records-Same g now (suc fuel) (k ∷ ks) m =
      let body = g.record_body (record {
        format = volume_format;
        volume_id = w.volume_id;
        created_at = now;
        objects = take objects_per_record (k ∷ ks);
      }) in
      let name = gc_prefix w.prefix <> g.record_name now body in
      write_records-Same g now fuel (drop objects_per_record (k ∷ ks)) (put_if_absent m name body).0
      ∙ put_if_absent-Same key name body m (
          apart (λ x. not (starts_with x (gc_prefix w.prefix))) key name (rw object refl)
            (rw (starts_with-append (gc_prefix w.prefix) (g.record_name now body)) refl))
