-- ===== src/Agent/Sinks/Restored.antt =====
-- Patching and restoring.
use mathlib.Core.Path.{subst}
use omniscan.Prelude.{
  String, ◌==◌, eq_iff, ◌≡◌, refl, sym, ◌∙◌, ap, false, Option, none, some, List, [], ◌∷◌, ◌++◌,
  All, arith, Bool-cases, inl, inr,
}
use omniscan.Prelude.Dict.{Dict, lookup, insert, lookup-insert}
use omniscan.Agent.Sinks.{
  Spec, Function, own, wrapper, Patched, key_of, patch_with, instrument, restore, uninstrument,
}

restore-append :
    (xs : List (String × Function)) (key : String) (f : Function) (table : Dict Function)
    → restore (xs ++ (key, f) ∷ []) table ≡ insert key f (restore xs table)
unfolding restore
restore-append [] key f table = refl
restore-append ((k, g) ∷ xs) key f table = restore-append xs key f (insert k g table)

-- The value restored at a key that the loop does not assign is the value before.
abbrev Untouched : String → List (String × Function) → Type 0
Untouched key xs = All (λ entry. (entry.0 == key) ≡ false) xs

lookup-restore-Untouched :
    (key : String) (xs : List (String × Function)) (table : Dict Function)
    → Untouched key xs
    → lookup key (restore xs table) ≡ lookup key table
unfolding restore
lookup-restore-Untouched key [] table h = refl
lookup-restore-Untouched key ((k, g) ∷ xs) table (ne, h) =
    lookup-restore-Untouched key xs (insert k g table) h
    ∙ ground (arith, lookup-insert k key g table, ne)

-- Two tables that agree at a key agree there after the loop.
lookup-restore_agree :
    (key : String) (xs : List (String × Function)) (s t : Dict Function)
    → lookup key s ≡ lookup key t
    → lookup key (restore xs s) ≡ lookup key (restore xs t)
unfolding restore
lookup-restore_agree key [] s t h = h
lookup-restore_agree key ((k, g) ∷ xs) s t h =
    lookup-restore_agree key xs (insert k g s) (insert k g t)
      (rw (lookup-insert k key g s, lookup-insert k key g t, h) refl)

-- A key with a wrapper in the table.
abbrev Wrapped : Dict Function → String × Function → Type 0
Wrapped table entry = (f : Function) × (s : Spec) × (lookup entry.0 table ≡ some (wrapper f s))

-- While a module is patched, its table can be restored, and what is installed is wrapped.
record Restorable (before : Dict Function) (p : Patched) : Type 0 where
  back : (key : String) → lookup key (restore p.installed p.table) ≡ lookup key before
  wrapped : All (Wrapped p.table) p.installed

own-Untouched :
    (key : String) (name : String) (table : Dict Function) (xs : List (String × Function))
    → lookup key table ≡ some (own name)
    → All (Wrapped table) xs
    → Untouched key xs
own-Untouched key name table [] h w = tt
own-Untouched key name table ((k, g) ∷ xs) h ((f, s, e), w) = elim (Bool-cases (k == key)) [
  | inl same ↦
      let clash : lookup key table ≡ some (wrapper f s) =
        subst (λ j. lookup j table ≡ some (wrapper f s)) ((eq_iff k key).0 same) e in
      absurd (cc (h, clash))
  | inr other ↦ (other, own-Untouched key name table xs h w)
]

still-Wrapped :
    (key : String) (v : Function) (table : Dict Function) (xs : List (String × Function))
    → Untouched key xs
    → All (Wrapped table) xs
    → All (Wrapped (insert key v table)) xs
still-Wrapped key v table [] u w = tt
still-Wrapped key v table ((k, g) ∷ xs) (ne, u) ((f, s, e), w) = (
  (f, s, lookup-insert key k v table ∙ ground (arith, ne, e, eq_iff key k, eq_iff k key)),
  still-Wrapped key v table xs u w,
)

All-append_one :
    {A : Type 0} (P : A → Type 0) (xs : List A) (x : A) → All P xs → P x → All P (xs ++ x ∷ [])
All-append_one P [] x h p = (p, tt)
All-append_one P (y ∷ xs) x (q, h) p = (q, All-append_one P xs x h p)

lookup-insert_self :
    (key : String) (v : Function) (table : Dict Function) → lookup key (insert key v table) ≡ some v
lookup-insert_self key v table = ground (arith, lookup-insert key key v table, eq_iff key key)

back_after :
    (before : Dict Function) (key name : String) (v : Function) (table : Dict Function)
    (xs : List (String × Function)) (j : String)
    → lookup key table ≡ some (own name)
    → Untouched key xs
    → ((i : String) → lookup i (restore xs table) ≡ lookup i before)
    → lookup j (restore (xs ++ (key, own name) ∷ []) (insert key v table)) ≡ lookup j before
back_after before key name v table xs j e fresh back =
    ap (lookup j) (restore-append xs key (own name) (insert key v table))
    ∙ lookup-insert key j (own name) (restore xs (insert key v table))
    ∙ elim (Bool-cases (key == j)) [
      | inl same ↦
          let at_key : lookup key before ≡ some (own name) =
            sym (back key) ∙ lookup-restore-Untouched key xs table fresh ∙ e in
          rw same
            (sym (subst (λ i. lookup i before ≡ some (own name)) ((eq_iff key j).0 same) at_key))
      | inr other ↦ rw other (
          lookup-restore_agree j xs (insert key v table) table
            (lookup-insert key j v table ∙ ground (arith, other))
          ∙ back j)
    ]

patch-Restorable :
    (before : Dict Function) (spec : Spec) (p : Patched) (o : Option Function)
    → lookup (key_of spec) p.table ≡ o
    → Restorable before p
    → Restorable before (patch_with o spec p)
unfolding patch_with
patch-Restorable before spec p none e r = r
patch-Restorable before spec p (some (wrapper f s)) e r = r
patch-Restorable before spec p (some (own f)) e r =
    let key = key_of spec in
    let fresh = own-Untouched key f p.table p.installed e r.wrapped in
    let held = insert key (wrapper (own f) spec) p.table in
    record {
      back =
          λ j. back_after before key f (wrapper (own f) spec) p.table p.installed j e fresh r.back;
      wrapped =
          All-append_one (Wrapped held) p.installed (key, own f)
            (still-Wrapped key (wrapper (own f) spec) p.table p.installed fresh r.wrapped)
            (own f, spec, lookup-insert_self key (wrapper (own f) spec) p.table);
    }

instrument-Restorable :
    (before : Dict Function) (specs : List Spec) (p : Patched)
    → Restorable before p
    → Restorable before (instrument specs p)
unfolding instrument
instrument-Restorable before [] p r = r
instrument-Restorable before (spec ∷ specs) p r =
    instrument-Restorable before specs _
      (patch-Restorable before spec p (lookup (key_of spec) p.table) refl r)

-- Whatever sinks are given and whatever the modules hold before, wrappers included: after
-- `instrument`, `uninstrument` leaves at every attribute what was there before.
pub uninstrument-instrument :
    (specs : List Spec) (before : Dict Function) (key : String)
    → lookup key (uninstrument (instrument specs (record { table = before; installed = [] }))).table
      ≡ lookup key before
unfolding uninstrument restore
uninstrument-instrument specs before key =
    (instrument-Restorable before specs (record { table = before; installed = [] })
        (record { back = λ j. refl; wrapped = tt })).back
      key
