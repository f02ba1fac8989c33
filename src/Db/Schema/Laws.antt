-- ===== src/Db/Schema/Laws.antt =====
-- What a migrated database holds.
use global_payments_observab.Base.{◌≡◌, refl, Bool, false, some, List, [], ◌∷◌, All, arith}
use global_payments_observab.Db.Schema.{
  Schema, Operation, create_table, create_index, any, remove_all, is_table, is_index, is_index_of,
  refers_to, apply, apply_all, and_then,
}
use global_payments_observab.Db.Schema.Migration.{upgrade, downgrade}

-- None of the names that an operation makes is taken; nothing refers to a table that is not there yet.
abbrev pub Free : Schema → Operation → Type 0
Free s (create_table t) =
    (any (is_table t.name) s.tables ≡ false)
    × (any (refers_to t.name) s.tables ≡ false)
    × (any (is_index_of t.name) s.indexes ≡ false)
Free s (create_index name table columns) = any (is_index name) s.indexes ≡ false
Free s _ = Unit

remove_all_none :
    {A : Type 0} (p : A → Bool) (xs : List A) → any p xs ≡ false → remove_all p xs ≡ xs
remove_all_none p [] h = refl
remove_all_none p (x ∷ xs) h = ground (arith, remove_all_none p xs)

-- On a database in which the names that the upgrade makes are free, and in which no foreign key and no
-- index stands on a table of these names, the upgrade goes through, its foreign key included, and the
-- downgrade, which drops no table that another still refers to, leads back to the same schema.
pub downgrade-upgrade :
    (s : Schema)
    → All (Free s) upgrade
    → and_then (apply_all upgrade s) (apply_all downgrade) ≡ some s
unfolding apply_all apply
downgrade-upgrade s free =
    let (
      (t1, r1, x1),
      (
        (t2, r2, x2),
        (
          (t3, r3, x3),
          (i1, (i2, (i3, ((t4, r4, x4), (i4, (i5, (i6, (i7, ((t5, r5, x5), (i8, (i9, _))))))))))),
        ),
      ),
    ) =
      free in
    simp
      (
        t1,
        t2,
        t3,
        t4,
        t5,
        r1,
        r2,
        r3,
        r4,
        r5,
        i1,
        i2,
        i3,
        i4,
        i5,
        i6,
        i7,
        i8,
        i9,
        remove_all_none _ s.indexes x1,
        remove_all_none _ s.indexes x2,
        remove_all_none _ s.indexes x3,
        remove_all_none _ s.indexes x4,
        remove_all_none _ s.indexes x5,
      )
      refl
