-- ===== src/Wamp/Uri/Pattern/Agreement.antt =====
-- The tests of URIs on their components, and the regular expressions.
use autobahn_python.Base.{
  List, [], ◌∷◌, ◌++◌, append_assoc, append-nil, Bool, true, false, ◌&&◌, ◌||◌, not, ◌≡◌, ◌≢◌, refl,
  sym, ap, subst, ◌∙◌, ◌⊎◌, inl, inr, ◌↔◌,
}
use autobahn_python.Wamp.Value.{Text}
use autobahn_python.Wamp.Uri.{all_loose, is_uri}
use autobahn_python.Wamp.Uri.Components.{join_dots, AreAllowed, is_uri-iff_components}
use autobahn_python.Wamp.Uri.Pattern.{
  Regex, char, then_match, either_match, star, optional, dollar, plus, loose_char, pattern_of,
  Matches, in_turn, stop, again, at_end, before_line_feed,
}
use autobahn_python.Wamp.Uri.Pattern.Pieces.{
  star_front, plus_front, star_of, plus_of, dotted_front, dotted_of, optional_front, optional_of,
  either_front, either_of,
}

-- What a pattern for a component before a dot, and one for the last component, have to find.
record Parts (e l : Bool) (part final : Regex) : Type 0 where
  front :
      (s t : Text)
      → Matches part s t
      → (w : Text) × (all_loose w ≡ true) × ((w ≢ []) ⊎ (e && not l ≡ true)) × (s ≡ w ++ 0x2e ∷ t)
  rest :
      (s t : Text)
      → Matches final s t
      → (w : Text) × (all_loose w ≡ true) × ((w ≢ []) ⊎ (e || l ≡ true)) × (s ≡ w ++ t)
  part_of :
      (w t : Text)
      → all_loose w ≡ true
      → (w ≢ []) ⊎ (e && not l ≡ true)
      → Matches part (w ++ 0x2e ∷ t) t
  final_of :
      (w t : Text) → all_loose w ≡ true → (w ≢ []) ⊎ (e || l ≡ true) → Matches final (w ++ t) t

module _ (e l : Bool) (part final : Regex) (p : Parts e l part final) where
  -- A component before others.
  component_before :
      (w : Text) (ss : List Text) (tail : Text)
      → all_loose w ≡ true
      → (w ≢ []) ⊎ (e && not l ≡ true)
      → AreAllowed e l ss
      → AreAllowed e l (w ∷ ss) × (w ++ 0x2e ∷ (join_dots ss ++ tail) ≡ join_dots (w ∷ ss) ++ tail)
  component_before w [] tail a n k = absurd k
  component_before w (s ∷ ss) tail a n k =
      ((a, n, k), sym (append_assoc w (0x2e ∷ join_dots (s ∷ ss)) tail))

  fronts :
      (s t tail : Text) (ss : List Text)
      → Matches (star part) s t
      → AreAllowed e l ss
      → t ≡ join_dots ss ++ tail
      → (ss' : List Text) × AreAllowed e l ss' × (s ≡ join_dots ss' ++ tail)
  fronts s t tail ss stop k q = (ss, k, q)
  fronts s t tail ss (again {t = u} m ms) k q =
      let (ss', k', q') = fronts u t tail ss ms k q in
      let (w, a, n, r) = p.front s u m in
      let b = component_before w ss' tail a n k' in
      (w ∷ ss', b.0, r ∙ ap (λ x. w ++ 0x2e ∷ x) q' ∙ b.1)

  found :
      (s t : Text)
      → Matches (then_match (star part) (then_match final dollar)) s t
      → (ss : List Text) × AreAllowed e l ss
        × ((s ≡ join_dots ss) ⊎ (s ≡ join_dots ss ++ 0x0a ∷ []))
  found s t (in_turn {t = u} ms (in_turn m at_end)) =
      let (w, a, n, r) = p.rest u [] m in
      let (ss, k, q) = fronts s u [] (w ∷ []) ms (a, n) r in
      (ss, k, inl (q ∙ append-nil (join_dots ss)))
  found s t (in_turn {t = u} ms (in_turn m before_line_feed)) =
      let (w, a, n, r) = p.rest u (0x0a ∷ []) m in
      let (ss, k, q) = fronts s u (0x0a ∷ []) (w ∷ []) ms (a, n) r in (ss, k, inr q)

  prepend :
      (s t u : Text) (q : Regex)
      → Matches part s t
      → Matches (then_match (star part) q) t u
      → Matches (then_match (star part) q) s u
  prepend s t u q m (in_turn ms r) = in_turn (again m ms) r

  matched :
      (ss : List Text) (tail : Text)
      → AreAllowed e l ss
      → Matches dollar tail tail
      → Matches (then_match (star part) (then_match final dollar)) (join_dots ss ++ tail) tail
  matched [] tail k d = absurd k
  matched (s ∷ []) tail k d = in_turn stop (in_turn (p.final_of s tail k.0 k.1) d)
  matched (s ∷ t ∷ ss) tail k d =
      subst (λ x. Matches (then_match (star part) (then_match final dollar)) x tail)
        (sym (append_assoc s (0x2e ∷ join_dots (t ∷ ss)) tail))
        (prepend _ _ tail _ (p.part_of s (join_dots (t ∷ ss) ++ tail) k.0 k.1)
          (matched (t ∷ ss) tail k.2 d))

  found_iff :
      (s : Text)
      → ((ss : List Text) × AreAllowed e l ss
          × ((s ≡ join_dots ss) ⊎ (s ≡ join_dots ss ++ 0x0a ∷ [])))
        ↔ ((t : Text) × Matches (then_match (star part) (then_match final dollar)) s t)
  found_iff s = (there, λ h. found s h.0 h.1)
    where
      there :
          (ss : List Text) × AreAllowed e l ss
            × ((s ≡ join_dots ss) ⊎ (s ≡ join_dots ss ++ 0x0a ∷ []))
          → (t : Text) × Matches (then_match (star part) (then_match final dollar)) s t
      there (ss, k, inl q) = (
        [],
        subst (λ x. Matches (then_match (star part) (then_match final dollar)) x [])
            (append-nil (join_dots ss) ∙ sym q) (matched ss [] k at_end),
      )
      there (ss, k, inr q) = (
        0x0a ∷ [],
        subst (λ x. Matches (then_match (star part) (then_match final dollar)) x (0x0a ∷ []))
            (sym q) (matched ss (0x0a ∷ []) k before_line_feed),
      )

filled : (w : Text) → (w ≢ []) ⊎ (false ≡ true) → w ≢ []
filled w (inl n) = n
filled w (inr e) = absurd (cc)

not_after_and : (e : Bool) → e && not true ≡ false
not_after_and true = refl
not_after_and false = refl

or_true : (e : Bool) → e || true ≡ true
or_true true = refl
or_true false = refl

last_empty_Parts :
    (e : Bool) → Parts e true (then_match (plus loose_char) (char 0x2e)) (star loose_char)
last_empty_Parts e = record {
  front = λ s t m. let (w, a, n, r) = dotted_front s t m in (w, a, inl n, r);
  rest = λ s t m. let (w, a, r) = star_front s t m in (w, a, inr (or_true e), r);
  part_of = λ w t a n.
      dotted_of w t a (filled w (subst (λ b. (w ≢ []) ⊎ (b ≡ true)) (not_after_and e) n));
  final_of = λ w t a _. star_of w t a;
}

empty_Parts :
    Parts true false
      (either_match (then_match (plus loose_char) (char 0x2e)) (char 0x2e))
      (optional (plus loose_char))
empty_Parts = record {
  front = λ s t m. let (w, a, r) = either_front s t m in (w, a, inr refl, r);
  rest = λ s t m. let (w, a, r) = optional_front s t m in (w, a, inr refl, r);
  part_of = λ w t a _. either_of w t a;
  final_of = λ w t a _. optional_of w t a;
}

non_empty_Parts : Parts false false (then_match (plus loose_char) (char 0x2e)) (plus loose_char)
non_empty_Parts = record {
  front = λ s t m. let (w, a, n, r) = dotted_front s t m in (w, a, inl n, r);
  rest = λ s t m. let (w, a, n, r) = plus_front s t m in (w, a, inl n, r);
  part_of = λ w t a n. dotted_of w t a (filled w n);
  final_of = λ w t a n. plus_of w t a (filled w n);
}

components-iff_Matches :
    (e l : Bool) (s : Text)
    → ((ss : List Text) × AreAllowed e l ss
        × ((s ≡ join_dots ss) ⊎ (s ≡ join_dots ss ++ 0x0a ∷ [])))
      ↔ ((t : Text) × Matches (pattern_of e l) s t)
components-iff_Matches e true s = found_iff e true _ _ (last_empty_Parts e) s
components-iff_Matches true false s = found_iff true false _ _ empty_Parts s
components-iff_Matches false false s = found_iff false false _ _ non_empty_Parts s

-- The test of a URI on its components accepts a text exactly if the regular expression of the
-- source that check_or_raise_uri chooses matches it, for both flags, where a class of characters
-- leaves out whitespace, the dot and the number sign, and $ holds at the end and before a line
-- feed at the end.
pub is_uri-iff_Matches :
    (allow_empty_components allow_last_empty : Bool) (s : Text)
    → (is_uri allow_empty_components allow_last_empty s ≡ true)
      ↔ ((t : Text) × Matches (pattern_of allow_empty_components allow_last_empty) s t)
is_uri-iff_Matches e l s =
    let a = is_uri-iff_components e l s in
    let b = components-iff_Matches e l s in ((λ h. b.0 (a.0 h)), (λ h. a.1 (b.1 h)))
