-- ===== src/Wamp/Checks/Accepted.antt =====
-- What passes the checks, and what has passed them.
use autobahn_python.Base.{
  ℕ, List, [], ◌∷◌, Bool, true, false, Option, none, some, ltb, ◌≤◌, if◌then◌else◌, Error, ok, err,
  ◌≡◌, refl, arith, ap, subst,
}
use autobahn_python.Wamp.Value.{
  Text, ℤ, pos, negsuc, Value, null, bool, int, float, str, bytes, list, dict, Items, Fields, Entry,
  dict_with, read, map,
}
use autobahn_python.Wamp.Value.Lookup.{Whenever, read-map, read-map_when}
use autobahn_python.Wamp.Uri.{is_uri, check_or_raise_uri}
use autobahn_python.Wamp.Checks.{
  max_id, check_or_raise_id, keys_are_texts, check_or_raise_extra, check_text, check_bool,
  check_int, check_forward_for, all_forwarders, assert_forward_for,
}

-- An ID of WAMP.
abbrev pub IsId : ℤ → Type 0
IsId (pos n) = n ≤ max_id
IsId (negsuc _) = ⊥

abbrev pub IsUri : Bool → Bool → Text → Type 0
IsUri allow_empty_components allow_last_empty s =
    is_uri allow_empty_components allow_last_empty s ≡ true

-- A dictionary with texts as keys.
abbrev pub IsExtra : Fields → Type 0
IsExtra d = keys_are_texts d ≡ true

-- A value for `forward_for` that an object can have.
abbrev pub AreForwarders : Items → Type 0
AreForwarders ffs = all_forwarders ffs ≡ true

pub check_id-IsId : (i : ℤ) → IsId i → check_or_raise_id (int i) ≡ ok i
unfolding check_or_raise_id
check_id-IsId (pos n) h = ground arith
check_id-IsId (negsuc n) h = absurd h

pub check_uri-IsUri : (e l : Bool) (s : Text) → IsUri e l s → check_or_raise_uri e l (str s) ≡ ok s
unfolding check_or_raise_uri
check_uri-IsUri e l s h = rw h

pub check_extra-IsExtra : (d : Fields) → IsExtra d → check_or_raise_extra (dict d) ≡ ok d
unfolding check_or_raise_extra
check_extra-IsExtra d h = rw h

pub dict_with-IsExtra : (es : List Entry) → IsExtra (dict_with es)
unfolding keys_are_texts dict_with
dict_with-IsExtra [] = refl
dict_with-IsExtra ((k, none) ∷ es) = dict_with-IsExtra es
dict_with-IsExtra ((k, some v) ∷ es) = dict_with-IsExtra es

pub check_extra-dict_with :
    (es : List Entry) → check_or_raise_extra (dict (dict_with es)) ≡ ok (dict_with es)
check_extra-dict_with es = check_extra-IsExtra (dict_with es) (dict_with-IsExtra es)

pub assert-AreForwarders :
    (o : Option Items) → Whenever AreForwarders o → assert_forward_for o ≡ ok tt
unfolding assert_forward_for
assert-AreForwarders none h = refl
assert-AreForwarders (some ffs) h = rw h

pub text_read : (o : Option Text) → read check_text (map str o) ≡ ok o
text_read o = read-map check_text str (λ _. unfold check_text in refl) o

pub bool_read : (o : Option Bool) → read check_bool (map bool o) ≡ ok o
bool_read o = read-map check_bool bool (λ _. unfold check_bool in refl) o

pub int_read : (o : Option ℤ) → read check_int (map int o) ≡ ok o
int_read o = read-map check_int int (λ _. unfold check_int in refl) o

pub forward_for_read : (o : Option Items) → read check_forward_for (map list o) ≡ ok o
forward_for_read o = read-map check_forward_for list (λ _. unfold check_forward_for in refl) o

pub uri_read :
    (o : Option Text)
    → Whenever (IsUri false false) o
    → read (check_or_raise_uri false false) (map str o) ≡ ok o
uri_read o h = read-map_when (check_or_raise_uri false false) str (check_uri-IsUri false false) o h

pub ok-injective : {A : Type 0} {a b : A} → ok a ≡ ok b → a ≡ b
ok-injective {a} {b} h = ap (λ r. elim r [ ok x ↦ x | err _ ↦ a ]) h

bounded :
    (b : Bool) (n : ℕ) (i : ℤ)
    → (b ≡ false → n ≤ max_id)
    → (if b then err Error.invalid_message else ok (pos n)) ≡ ok i
    → IsId i
bounded true n i h e = absurd (cc)
bounded false n i h e = subst IsId (ok-injective e) (h refl)

-- The other way round.
pub IsId-checked : (v : Value) (i : ℤ) → check_or_raise_id v ≡ ok i → IsId i
unfolding check_or_raise_id
IsId-checked (int (pos n)) i h = bounded (ltb max_id n) n i (λ e. ground arith) h
IsId-checked (int (negsuc n)) i h = absurd (cc)
IsId-checked null i h = absurd (cc)
IsId-checked (bool _) i h = absurd (cc)
IsId-checked (float _) i h = absurd (cc)
IsId-checked (str _) i h = absurd (cc)
IsId-checked (bytes _) i h = absurd (cc)
IsId-checked (list _) i h = absurd (cc)
IsId-checked (dict _) i h = absurd (cc)
