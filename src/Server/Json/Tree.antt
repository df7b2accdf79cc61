-- ===== src/Server/Json/Tree.antt =====
-- Json.h: values as trees, the calls that write them, and the JSON text of them.
use out_of_book.Prelude.{
  ℕ, ◌≡◌, ◌∙◌, List, [], ◌∷◌, ◌++◌, Bool, true, false, if◌then◌else◌, refl, ap, sym, Bool-cases,
  inl, inr,
}
use mathlib.Core.List.{append_assoc, append-nil}
use out_of_book.Text.{bytes}
use out_of_book.Text.Decimal.{to_string}
use out_of_book.Server.FloatBits.{is_finite}
use out_of_book.Server.Json
use out_of_book.Server.Json.{Json, escape_all, append, sep}

-- A double is given by its bits.
mutual
  pub data Value : Type 0 where
    null : Value
    boolean : Bool → Value
    unsigned : ℕ → Value
    double : ℕ → Value
    string : List ℕ → Value
    array : Items → Value
    object : Members → Value

  pub data Items : Type 0 where
    end : Items
    item : Value → Items → Items

  pub data Members : Type 0 where
    done : Members
    member : List ℕ → Value → Members → Members

module _ (format : ℕ → List ℕ) where
  -- The calls on the writer, in the order in which the server's handlers make them.
  unfoldable mutual
    pub emit : Value → Json → Json
    emit null j = Json.null j
    emit (boolean b) j = Json.value_bool b j
    emit (unsigned n) j = Json.value_unsigned n j
    emit (double d) j = Json.value_double format d j
    emit (string s) j = Json.value_string s j
    emit (array xs) j = Json.end_array (emit_items xs (Json.begin_array j))
    emit (object ms) j = Json.end_object (emit_members ms (Json.begin_object j))

    pub emit_items : Items → Json → Json
    emit_items end j = j
    emit_items (item v xs) j = emit_items xs (emit v j)

    pub emit_members : Members → Json → Json
    emit_members done j = j
    emit_members (member k v ms) j = emit_members ms (emit v (Json.key k j))

  abbrev pub quoted : List ℕ → List ℕ
  quoted s = b'"' ∷ (escape_all s ++ b'"' ∷ [])

  abbrev pub comma : Bool → List ℕ
  comma b = if b then b',' ∷ [] else []

  -- The text by the grammar; `more` tells whether an element stands in front.
  unfoldable mutual
    pub text : Value → List ℕ
    text null = bytes "null"
    text (boolean b) = if b then bytes "true" else bytes "false"
    text (unsigned n) = to_string n
    text (double d) = if is_finite d then format d else bytes "null"
    text (string s) = quoted s
    text (array xs) = b'[' ∷ (text_items false xs ++ b']' ∷ [])
    text (object ms) = b'{' ∷ (text_members false ms ++ b'}' ∷ [])

    pub text_items : Bool → Items → List ℕ
    text_items more end = []
    text_items more (item v xs) = comma more ++ (text v ++ text_items true xs)

    pub text_members : Bool → Members → List ℕ
    text_members more done = []
    text_members more (member k v ms) =
        comma more ++ (quoted k ++ (b':' ∷ (text v ++ text_members true ms)))

  -- The writer after it wrote `s` as one element.
  abbrev pub wrote : Json → List ℕ → Json
  wrote j s = record { out = j.out ++ (comma j.need_comma ++ s); need_comma = true }

  sep_out :
      (b : Bool) (out s : List ℕ)
      → (if b then out ++ b',' ∷ [] else out) ++ s ≡ out ++ (comma b ++ s)
  sep_out true out s = append_assoc out (b',' ∷ []) s
  sep_out false out s = refl

  sep_lem : (j : Json) (s : List ℕ) → append s (sep j) ≡ wrote j s
  unfolding sep
  sep_lem j s = ap (λ o. record { out = o; need_comma = true }) (sep_out j.need_comma j.out s)

  double_lem :
      (d : ℕ) (j : Json)
      → Json.value_double format d j ≡ wrote j (if is_finite d then format d else bytes "null")
  unfolding Json.value_double
  double_lem d j = elim (Bool-cases (is_finite d)) [
    | inl e ↦ rw e (sep_lem j (format d))
    | inr e ↦ rw e (sep_lem j (bytes "null"))
  ]

  regroup : (a b c d : List ℕ) → (a ++ (b ++ c)) ++ d ≡ a ++ (b ++ (c ++ d))
  regroup a b c d = append_assoc a (b ++ c) d ∙ ap (◌++◌ a) (append_assoc b c d)

  -- An element whose text begins with `front` and ends with `back`, round what was written between.
  wrap :
      (j : Json) (front inner back : List ℕ)
      → (((if j.need_comma then j.out ++ b',' ∷ [] else j.out) ++ front) ++ inner) ++ back
        ≡ j.out ++ (comma j.need_comma ++ (front ++ (inner ++ back)))
  wrap j front inner back =
      append_assoc _ inner back
      ∙ append_assoc (if j.need_comma then j.out ++ b',' ∷ [] else j.out) front (inner ++ back)
      ∙ sep_out j.need_comma j.out (front ++ (inner ++ back))

  mutual
    unfolding emit text Json.value_bool Json.value_unsigned Json.value_double Json.value_string
        Json.null Json.begin_array Json.end_array Json.begin_object Json.end_object Json.key
        Json.write_string sep

    emit_lem : (v : Value) (j : Json) → emit v j ≡ wrote j (text v)
    emit_lem null j = sep_lem j (bytes "null")
    emit_lem (boolean b) j = sep_lem j (if b then bytes "true" else bytes "false")
    emit_lem (unsigned n) j = sep_lem j (to_string n)
    emit_lem (double d) j = double_lem d j
    emit_lem (string s) j = sep_lem j (quoted s)
    emit_lem (array xs) j =
        ap (λ o. record { out = o ++ b']' ∷ []; need_comma = true })
          (emit_items_lem xs (Json.begin_array j))
        ∙ ap (λ o. record { out = o; need_comma = true })
            (wrap j (b'[' ∷ []) (text_items false xs) (b']' ∷ []))
    emit_lem (object ms) j =
        ap (λ o. record { out = o ++ b'}' ∷ []; need_comma = true })
          (emit_members_lem ms (Json.begin_object j))
        ∙ ap (λ o. record { out = o; need_comma = true })
            (wrap j (b'{' ∷ []) (text_members false ms) (b'}' ∷ []))

    emit_items_lem :
        (xs : Items) (j : Json) → (emit_items xs j).out ≡ j.out ++ text_items j.need_comma xs
    emit_items_lem end j = sym (append-nil j.out)
    emit_items_lem (item v xs) j =
        ap (λ s. (emit_items xs s).out) (emit_lem v j)
        ∙ emit_items_lem xs (wrote j (text v))
        ∙ regroup j.out (comma j.need_comma) (text v) (text_items true xs)

    emit_members_lem :
        (ms : Members) (j : Json) → (emit_members ms j).out ≡ j.out ++ text_members j.need_comma ms
    emit_members_lem done j = sym (append-nil j.out)
    emit_members_lem (member k v ms) j =
        ap (λ s. (emit_members ms s).out) (emit_lem v (Json.key k j))
        ∙ emit_members_lem ms (wrote (Json.key k j) (text v))
        ∙ append_assoc _ (text v) (text_members true ms)
        ∙ wrap j (quoted k) (b':' ∷ []) (text v ++ text_members true ms)

  -- Whatever was written before, writing a value adds a comma if one is due and then the JSON text of
  -- the value, and the next element will get a comma.
  pub emit-text :
      (v : Value) (j : Json)
      → emit v j ≡ record {
        out = j.out ++ ((if j.need_comma then b',' ∷ [] else []) ++ text v);
        need_comma = true;
      }
  emit-text v j = emit_lem v j

  -- A value written to a new writer is its JSON text and nothing else.
  pub emit-empty : (v : Value) → (emit v Json.empty).out ≡ text v
  emit-empty v = ap (λ s. s.out) (emit_lem v Json.empty)
