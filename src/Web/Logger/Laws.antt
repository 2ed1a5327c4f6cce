-- ===== src/Web/Logger/Laws.antt =====
-- What a child logger adds, for `with` and `emit` of web/src/lib/logger.ts.
use postal.Prelude.{
  String, ◌≡◌, Option, none, some, ltb, merge, lookup, lookup_last, or_else, lookup-merge, inl, inr,
  lookup_last-eq-lookup, merge-IsUnique, Bool-cases, ap, sym, refl, ◌∙◌, IsUnique,
}
use postal.Web.Logger.{LogLevel, level_weight, LogFields, Logger, with_fields, emit}

-- The field of a record, if there is a record.
abbrev pub field_of : String → Option LogFields → Option (Option String)
field_of k none = none
field_of k (some r) = some (lookup k r)

or_else_assoc : (a b c : Option String) → or_else (or_else a b) c ≡ or_else a (or_else b c)
or_else_assoc none b c = refl
or_else_assoc (some x) b c = refl

lookup_last-merge :
    (k : String) (a b : LogFields)
    → IsUnique a
    → lookup_last k (merge a b) ≡ or_else (lookup_last k b) (lookup_last k a)
lookup_last-merge k a b u =
    lookup_last-eq-lookup k (merge a b) (merge-IsUnique a b u)
    ∙ lookup-merge k a b
    ∙ ap (λ o. or_else (lookup_last k b) o) (sym (lookup_last-eq-lookup k a u))

lookup-merge_assoc :
    (k : String) (start base given fields : LogFields)
    → IsUnique base
    → IsUnique given
    → lookup k (merge (merge start (merge base given)) fields)
      ≡ lookup k (merge (merge start base) (merge given fields))
lookup-merge_assoc k start base given fields u v =
    rw
      (
        lookup-merge k (merge start (merge base given)) fields,
        lookup-merge k start (merge base given),
        lookup-merge k (merge start base) (merge given fields),
        lookup-merge k start base,
        lookup_last-merge k base given u,
        lookup_last-merge k given fields v,
        or_else_assoc (lookup_last k given) (lookup_last k base) (lookup k start),
        or_else_assoc (lookup_last k fields) (lookup_last k given)
            (or_else (lookup_last k base) (lookup k start)),
      )
      refl

-- A child logger writes as its parent does with the child's fields put before the call's own, where
-- no name stands twice among the parent's fields or the child's: the same records are dropped, and a
-- record that is written has the same value in every field.
pub emit-with_fields :
    (k time message : String) (level : LogLevel) (given fields : LogFields) (l : Logger)
    → IsUnique l.base
    → IsUnique given
    → field_of k (emit time level message fields (with_fields given l))
      ≡ field_of k (emit time level message (merge given fields) l)
unfolding emit with_fields
emit-with_fields k time message level given fields l u v =
    elim (Bool-cases (ltb (level_weight level) l.min_weight)) [
      | inl h ↦ rw h refl
      | inr h ↦ rw (h, lookup-merge_assoc k _ l.base given fields u v) refl
    ]
