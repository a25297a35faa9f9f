-- ===== src/Wamp/Uri/Components.antt =====
-- The loose patterns of URIs of wamp/message.py, and the components of a URI.
use autobahn_python.Base.{
  ℕ, List, [], ◌∷◌, ◌++◌, Bool, true, false, ◌&&◌, ◌||◌, not, ◌==◌, ==_iff, if◌then◌else◌, ◌≡◌, ◌≢◌,
  refl, sym, ap, ◌∙◌, ◌⊎◌, inl, inr, ◌↔◌, Bool-cases,
}
use autobahn_python.Wamp.Value.{Text}
use autobahn_python.Wamp.Uri.{
  dot, line_feed, is_loose, is_space, extend, components, all_loose, is_empty, loose_empty,
  loose_last_empty, loose_non_empty, choose_pattern, without_line_feed, is_uri,
}

abbrev pub join_dots : List Text → Text
join_dots [] = []
join_dots (s ∷ []) = s
join_dots (s ∷ t ∷ ss) = s ++ dot ∷ join_dots (t ∷ ss)

abbrev IsFilled : List Text → Type 0
IsFilled [] = ⊥
IsFilled (_ ∷ _) = Unit {0}

components-IsFilled : (s : Text) → IsFilled (components s)
unfolding components
components-IsFilled [] = tt
components-IsFilled (c ∷ s) = filled (c == dot) (components s)
  where
    filled : (b : Bool) (ss : List Text) → IsFilled (if b then [] ∷ ss else extend c ss)
    filled true ss = tt
    filled false [] = tt
    filled false (_ ∷ _) = tt

join_extend : (c : ℕ) (ss : List Text) → IsFilled ss → join_dots (extend c ss) ≡ c ∷ join_dots ss
join_extend c [] h = absurd h
join_extend c (s ∷ []) h = refl
join_extend c (s ∷ t ∷ ss) h = refl

join_after_dot : (ss : List Text) → IsFilled ss → join_dots ([] ∷ ss) ≡ dot ∷ join_dots ss
join_after_dot [] h = absurd h
join_after_dot (t ∷ ss) h = refl

join_components : (s : Text) → join_dots (components s) ≡ s
unfolding components
join_components [] = refl
join_components (c ∷ s) = elim (Bool-cases (c == dot)) [
  | inl e ↦ rw e (
      join_after_dot (components s) (components-IsFilled s)
      ∙ ap (λ t. dot ∷ t) (join_components s)
      ∙ ap (λ d. d ∷ s) (sym ((==_iff c dot).0 e)))
  | inr e ↦
      rw e
        (join_extend c (components s) (components-IsFilled s) ∙ ap (λ t. c ∷ t) (join_components s))
]

loose-not_dot : (c : ℕ) → is_loose c ≡ true → (c == dot) ≡ false
unfolding is_loose
loose-not_dot c h = middle (is_space c) (c == dot) (c == 0x23) h
  where
    middle : (a b d : Bool) → not a && not b && not d ≡ true → b ≡ false
    middle true b d h = absurd (cc)
    middle false true d h = absurd (cc)
    middle false false d h = refl

pub and_true : (a b : Bool) → a && b ≡ true → (a ≡ true) × (b ≡ true)
and_true true true h = (refl, refl)
and_true true false h = absurd (cc)
and_true false b h = absurd (cc)

components-loose : (s : Text) → all_loose s ≡ true → components s ≡ s ∷ []
unfolding components all_loose
components-loose [] h = refl
components-loose (c ∷ s) h =
    let p = and_true (is_loose c) (all_loose s) h in
    rw (loose-not_dot c p.0, components-loose s p.1)

components-dot : (s t : Text) → all_loose s ≡ true → components (s ++ dot ∷ t) ≡ s ∷ components t
unfolding components all_loose
components-dot [] t h = refl
components-dot (c ∷ s) t h =
    let p = and_true (is_loose c) (all_loose s) h in
    rw (loose-not_dot c p.0, components-dot s t p.1)

-- Components that stand in a URI. Empty ones are allowed everywhere, at the end or nowhere.
abbrev pub AreAllowed : (allow_empty_components allow_last_empty : Bool) → List Text → Type 0
AreAllowed e l [] = ⊥
AreAllowed e l (s ∷ []) = (all_loose s ≡ true) × ((s ≢ []) ⊎ (e || l ≡ true))
AreAllowed e l (s ∷ t ∷ ss) =
    (all_loose s ≡ true) × ((s ≢ []) ⊎ (e && not l ≡ true)) × AreAllowed e l (t ∷ ss)

components-join_dots :
    (e l : Bool) (ss : List Text) → AreAllowed e l ss → components (join_dots ss) ≡ ss
components-join_dots e l [] h = absurd h
components-join_dots e l (s ∷ []) h = components-loose s h.0
components-join_dots e l (s ∷ t ∷ ss) h =
    components-dot s (join_dots (t ∷ ss)) h.0
    ∙ ap (λ x. s ∷ x) (components-join_dots e l (t ∷ ss) h.2)

not_empty : (s : Text) → not (is_empty s) ≡ true → s ≢ []
not_empty [] h e = absurd (cc)
not_empty (_ ∷ _) h e = absurd (cc)

is_not_empty : (s : Text) → s ≢ [] → not (is_empty s) ≡ true
is_not_empty [] h = absurd (h refl)
is_not_empty (_ ∷ _) h = refl

pub pattern_sound :
    (e l : Bool) (ss : List Text) → IsFilled ss → choose_pattern e l ss ≡ true → AreAllowed e l ss
unfolding choose_pattern loose_empty loose_last_empty loose_non_empty
pattern_sound e l [] f h = absurd f
pattern_sound true true (s ∷ []) f h = (h, inr refl)
pattern_sound false true (s ∷ []) f h = (h, inr refl)
pattern_sound true false (s ∷ []) f h = ((and_true _ _ h).0, inr refl)
pattern_sound false false (s ∷ []) f h =
    let q = and_true _ _ (and_true _ _ h).0 in (q.0, inl (not_empty s q.1))
pattern_sound true true (s ∷ t ∷ ss) f h =
    let p = and_true _ _ h in
    let q = and_true _ _ p.0 in
    (q.0, inl (not_empty s q.1), pattern_sound true true (t ∷ ss) tt p.1)
pattern_sound false true (s ∷ t ∷ ss) f h =
    let p = and_true _ _ h in
    let q = and_true _ _ p.0 in
    (q.0, inl (not_empty s q.1), pattern_sound false true (t ∷ ss) tt p.1)
pattern_sound true false (s ∷ t ∷ ss) f h =
    let p = and_true _ _ h in (p.0, inr refl, pattern_sound true false (t ∷ ss) tt p.1)
pattern_sound false false (s ∷ t ∷ ss) f h =
    let p = and_true _ _ h in
    let q = and_true _ _ p.0 in
    (q.0, inl (not_empty s q.1), pattern_sound false false (t ∷ ss) tt p.1)

pub pattern_complete :
    (e l : Bool) (ss : List Text) → AreAllowed e l ss → choose_pattern e l ss ≡ true
unfolding choose_pattern loose_empty loose_last_empty loose_non_empty
pattern_complete e l [] h = absurd h
pattern_complete true true (s ∷ []) h = h.0
pattern_complete false true (s ∷ []) h = h.0
pattern_complete true false (s ∷ []) h = rw h.0
pattern_complete false false (s ∷ []) (h, inl n) = rw (h, is_not_empty s n)
pattern_complete false false (s ∷ []) (h, inr n) = absurd (cc)
pattern_complete true false (s ∷ t ∷ ss) (h, k, m) = rw (h, pattern_complete true false (t ∷ ss) m)
pattern_complete false false (s ∷ t ∷ ss) (h, inl n, m) =
    rw (h, is_not_empty s n, pattern_complete false false (t ∷ ss) m)
pattern_complete false false (s ∷ t ∷ ss) (h, inr n, m) = absurd (cc)
pattern_complete false true (s ∷ t ∷ ss) (h, inl n, m) =
    rw (h, is_not_empty s n, pattern_complete false true (t ∷ ss) m)
pattern_complete false true (s ∷ t ∷ ss) (h, inr n, m) = absurd (cc)
pattern_complete true true (s ∷ t ∷ ss) (h, inl n, m) =
    rw (h, is_not_empty s n, pattern_complete true true (t ∷ ss) m)
pattern_complete true true (s ∷ t ∷ ss) (h, inr n, m) = absurd (cc)

without-cases : (s : Text) → (without_line_feed s ≡ s) ⊎ (s ≡ without_line_feed s ++ line_feed ∷ [])
unfolding without_line_feed
without-cases [] = inl refl
without-cases (c ∷ []) = elim (Bool-cases (c == line_feed)) [
  | inl e ↦ inr (rw e (ap (λ d. d ∷ []) ((==_iff c line_feed).0 e)))
  | inr e ↦ inl (rw e)
]
without-cases (c ∷ d ∷ s) = elim (without-cases (d ∷ s)) [
  | inl e ↦ inl (ap (λ t. c ∷ t) e)
  | inr e ↦ inr (ap (λ t. c ∷ t) e)
]

without-append : (s : Text) → without_line_feed (s ++ line_feed ∷ []) ≡ s
unfolding without_line_feed
without-append [] = refl
without-append (c ∷ []) = refl
without-append (c ∷ d ∷ s) = ap (λ t. c ∷ t) (without-append (d ∷ s))

or_right : (a b : Bool) → b ≡ true → a || b ≡ true
or_right true b h = refl
or_right false b h = h

-- A text passes the test that is chosen exactly if it is what components that stand in a URI give with
-- dots between them, or that with a line feed behind it.
pub is_uri-iff_components :
    (e l : Bool) (s : Text)
    → (is_uri e l s ≡ true) ↔ (
        (ss : List Text) × AreAllowed e l ss
        × ((s ≡ join_dots ss) ⊎ (s ≡ join_dots ss ++ line_feed ∷ [])))
unfolding is_uri
is_uri-iff_components e l s = (there, back)
  where
    allowed : (t : Text) → choose_pattern e l (components t) ≡ true → AreAllowed e l (components t)
    allowed t h = pattern_sound e l (components t) (components-IsFilled t) h

    there :
        choose_pattern e l (components s) || choose_pattern e l (components (without_line_feed s))
          ≡ true
        → (ss : List Text) × AreAllowed e l ss
          × ((s ≡ join_dots ss) ⊎ (s ≡ join_dots ss ++ line_feed ∷ []))
    there h = elim (Bool-cases (choose_pattern e l (components s))) [
      | inl p ↦ (components s, allowed s p, inl (sym (join_components s)))
      | inr p ↦ (
        components (without_line_feed s),
        allowed (without_line_feed s) (
            sym (ap (λ (b : Bool). b || choose_pattern e l (components (without_line_feed s))) p)
            ∙ h),
        elim (without-cases s) [
          | inl q ↦ inl (sym (join_components (without_line_feed s) ∙ q))
          | inr q ↦
              inr (q ∙ ap (λ t. t ++ line_feed ∷ []) (sym (join_components (without_line_feed s))))
        ],
      )
    ]

    matched :
        (t : Text) (ss : List Text)
        → AreAllowed e l ss
        → t ≡ join_dots ss
        → choose_pattern e l (components t) ≡ true
    matched t ss h q =
        ap (λ x. choose_pattern e l (components x)) q
        ∙ ap (choose_pattern e l) (components-join_dots e l ss h)
        ∙ pattern_complete e l ss h

    back :
        (ss : List Text) × AreAllowed e l ss
          × ((s ≡ join_dots ss) ⊎ (s ≡ join_dots ss ++ line_feed ∷ []))
        → choose_pattern e l (components s) || choose_pattern e l (components (without_line_feed s))
          ≡ true
    back (ss, h, inl q) = rw (matched s ss h q)
    back (ss, h, inr q) = or_right _ _ (
        matched (without_line_feed s) ss h (ap without_line_feed q ∙ without-append (join_dots ss)))
