-- ===== src/Wamp/Requests/RoundTrip.antt =====
-- Marshalling and parsing what several classes of wamp/message.py share.
use autobahn_python.Base.{List, [], ◌∷◌, true, false, Option, none, some, ascii, ok, ◌≡◌, refl, ◌∙◌}
use autobahn_python.Wamp.Value.{
  Text, ℤ, int, str, list, dict, Items, nil, cons, Entry, dict_with, optional, map, same_text, get,
}
use autobahn_python.Wamp.Value.Lookup.{
  get-dict_with, entry, is_single, has_key, Whenever, same_text_refl,
}
use autobahn_python.Wamp.Checks.Accepted.{
  IsId, IsUri, check_id-IsId, check_extra-dict_with, int_read, uri_read, forward_for_read,
}
use autobahn_python.Wamp.Requests.{
  parse_ids, marshal_ids, parse_forward_for, parse_end, marshal_forward_for, marshal_end,
  parse_ended, ended_details, marshal_ended,
}

pub parse_ids-marshal : (r i : ℤ) → IsId r → IsId i → parse_ids (marshal_ids r i) ≡ ok (r, i)
unfolding parse_ids marshal_ids
parse_ids-marshal r i hr hi = rw (check_id-IsId r hr, check_id-IsId i hi)

-- A list without entries is not sent.
unfoldable pub sent_forward_for : Option Items → Option Items
sent_forward_for (some nil) = none
sent_forward_for o = o

pub parse_end-marshal :
    (r i : ℤ) (o : Option Items)
    → IsId r
    → IsId i
    → parse_end (marshal_end r i o) ≡ ok (r, i, sent_forward_for o)
unfolding parse_end marshal_end marshal_forward_for sent_forward_for parse_forward_for optional
    is_single has_key entry same_text ascii
parse_end-marshal r i none hr hi = rw (check_id-IsId r hr, check_id-IsId i hi)
parse_end-marshal r i (some nil) hr hi = rw (check_id-IsId r hr, check_id-IsId i hi)
parse_end-marshal r i (some (cons ff ffs)) hr hi =
    let es : List Entry = (ascii "forward_for", some (list (cons ff ffs))) ∷ [] in
    rw (
      check_id-IsId r hr,
      check_id-IsId i hi,
      check_extra-dict_with es,
      get-dict_with (ascii "forward_for") es refl,
      forward_for_read (some (cons ff ffs)),
    )

ended_read :
    (key : Text) (r : ℤ) (id : Option ℤ) (reason : Option Text)
    → same_text key (ascii "reason") ≡ false
    → same_text (ascii "reason") key ≡ false
    → same_text key key ≡ true
    → IsId r
    → Whenever (IsUri false false) reason
    → parse_ended key (cons (int r) (cons (dict (dict_with (ended_details key id reason))) nil))
      ≡ ok (r, id, reason)
unfolding parse_ended ended_details optional is_single has_key entry
ended_read key r id reason d d' s hr hu =
    let es = ended_details key id reason in
    let k : get key (dict_with es) ≡ map int id = get-dict_with key es (rw (d, s)) ∙ rw (d, s) in
    let r2 = same_text_refl (ascii "reason") in
    let l : get (ascii "reason") (dict_with es) ≡ map str reason =
      get-dict_with (ascii "reason") es (rw (r2, d')) ∙ rw r2 in
    rw (check_id-IsId r hr, check_extra-dict_with es, k, l, int_read id, uri_read reason hu)

pub parse_ended-marshal :
    (key : Text) (r : ℤ) (id : Option ℤ) (reason : Option Text)
    → same_text key (ascii "reason") ≡ false
    → same_text (ascii "reason") key ≡ false
    → same_text key key ≡ true
    → IsId r
    → Whenever (IsUri false false) reason
    → parse_ended key (marshal_ended key r id reason) ≡ ok (r, id, reason)
unfolding marshal_ended parse_ended
parse_ended-marshal key r none none d d' s hr hu = rw (check_id-IsId r hr)
parse_ended-marshal key r (some i) none d d' s hr hu = ended_read key r (some i) none d d' s hr hu
parse_ended-marshal key r none (some u) d d' s hr hu = ended_read key r none (some u) d d' s hr hu
parse_ended-marshal key r (some i) (some u) d d' s hr hu =
    ended_read key r (some i) (some u) d d' s hr hu
