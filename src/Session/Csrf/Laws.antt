-- ===== src/Session/Csrf/Laws.antt =====
-- A CSRF token serves the session that it was made for, and no other.
use wfmcontrol_m.Prelude.{
  ℕ, suc, ◌<◌, ◌≡◌, refl, ap, sym, ◌∙◌, Bool, true, false, ◌&&◌, Option, none, some, get_or, [],
  ◌∷◌, ◌++◌, arith, ltb, leb, any, length, Option-cases, inl, inr,
}
use wfmcontrol_m.Prelude.Int.{pos}
use wfmcontrol_m.Text.{Text, text_eq, is_empty, index_of, last_index_of, take, drop, mem_char}
use wfmcontrol_m.Text.Laws.{
  text_eq→eq, text_eq_refl, index_of-append, last_index_of-append, length_positive,
  append_not_empty, take-append, drop-append, split_at_last_index,
}
use wfmcontrol_m.Text.Decimal.{show_int-injective, show_int-ascii, beyond_ascii}
use wfmcontrol_m.Session.{JwtPayload}
use wfmcontrol_m.Session.Revocation.{present}
use wfmcontrol_m.Session.Csrf.{
  Crypto, create_csrf_token_from_session, validate_csrf_token, csrf_token, csrf_payload, tv_text,
  check_token, check_payload, check_claims, matches_session,
}

abbrev is_surrogate : ℕ → Bool
is_surrogate c = leb 55296 c && leb c 57343

-- A text without surrogates is the same after UTF-8, where a lone surrogate is replaced.
abbrev pub has_surrogate : Text → Bool
has_surrogate s = any is_surrogate s

-- What base64url of UTF-8 gives: a text without ".", that decodes to what was encoded where this has no
-- surrogate; the empty code stands for the empty text. Signatures are base64url too.
pub record IsBase64Url (k : Crypto) : Type 0 where
  pub decode-encode : (p : Text) → has_surrogate p ≡ false → k.decode (k.encode p) ≡ some p
  pub decode_empty : k.decode [] ≡ some []
  pub encode_no_dot : (p : Text) → mem_char b'.' (k.encode p) ≡ false
  pub sign_no_dot : (p : Text) → mem_char b'.' (k.sign p) ≡ false

-- The two claims of a session that a CSRF token names; a missing version counts as 0.
unfoldable pub SameClaims : JwtPayload → JwtPayload → Type 0
SameClaims p q = (present p.jti ≡ present q.jti) × (get_or p.tv (pos 0) ≡ get_or q.tv (pos 0))

has_surrogate-ascii : (s : Text) → beyond_ascii s ≡ false → has_surrogate s ≡ false
has_surrogate-ascii [] h = refl
has_surrogate-ascii (c ∷ s) h = ground (arith, has_surrogate-ascii s)

payload-has_surrogate :
    (jti tv : Text)
    → has_surrogate jti ≡ false
    → has_surrogate tv ≡ false
    → has_surrogate (jti ++ b':' ∷ tv) ≡ false
payload-has_surrogate [] tv h t = t
payload-has_surrogate (c ∷ jti) tv h t = ground (arith, payload-has_surrogate jti tv)

tv_text-has_surrogate : (p : JwtPayload) → has_surrogate (tv_text p) ≡ false
tv_text-has_surrogate p = has_surrogate-ascii (tv_text p) (show_int-ascii (get_or p.tv (pos 0)))

length-code_positive :
    (k : Crypto) (b : IsBase64Url k) (jti tv : Text)
    → has_surrogate (jti ++ b':' ∷ tv) ≡ false
    → 0 < length (k.encode (jti ++ b':' ∷ tv))
length-code_positive k b jti tv plain = length_positive (k.encode (jti ++ b':' ∷ tv)) (λ e.
    append_not_empty jti b':' tv (
      ap (λ o. get_or o [])
        (sym (b.decode-encode (jti ++ b':' ∷ tv) plain) ∙ ap k.decode e ∙ b.decode_empty)))

check_csrf_token :
    (k : Crypto) (b : IsBase64Url k) (jti tv session_token : Text)
    → has_surrogate (jti ++ b':' ∷ tv) ≡ false
    → mem_char b':' jti ≡ false
    → is_empty jti ≡ false
    → check_token k
        (csrf_token k (jti ++ b':' ∷ tv))
        session_token
        (last_index_of b'.' (csrf_token k (jti ++ b':' ∷ tv)))
      ≡ matches_session jti tv (k.session session_token)
check_csrf_token k b jti tv session_token plain no_colon some_jti =
    let payload = jti ++ b':' ∷ tv in
    rw
      (
        last_index_of-append b'.' (k.encode payload) (k.sign payload) (b.sign_no_dot payload),
        take-append (k.encode payload) (b'.' ∷ k.sign payload),
        drop-append (k.encode payload) b'.' (k.sign payload),
        b.decode-encode payload plain,
        text_eq_refl (k.sign payload),
        index_of-append b':' jti tv no_colon,
        take-append jti (b':' ∷ tv),
        drop-append jti b':' tv,
      )
      (ground (arith, length-code_positive k b jti tv plain, length_positive jti))

append-is_empty : (s : Text) (c : ℕ) (t : Text) → is_empty (s ++ c ∷ t) ≡ false
append-is_empty [] c t = refl
append-is_empty (d ∷ s) c t = refl

csrf_nonempty : (k : Crypto) (payload : Text) → is_empty (csrf_token k payload) ≡ false
csrf_nonempty k payload = append-is_empty (k.encode payload) b'.' (k.sign payload)

validate_csrf_token-matches :
    (k : Crypto) (b : IsBase64Url k) (jti tv session_token : Text)
    → has_surrogate (jti ++ b':' ∷ tv) ≡ false
    → mem_char b':' jti ≡ false
    → is_empty jti ≡ false
    → is_empty session_token ≡ false
    → validate_csrf_token k (csrf_token k (jti ++ b':' ∷ tv)) session_token
      ≡ matches_session jti tv (k.session session_token)
unfolding validate_csrf_token
validate_csrf_token-matches k b jti tv session_token plain no_colon some_jti some_token =
    rw (csrf_nonempty k (jti ++ b':' ∷ tv), some_token)
      (check_csrf_token k b jti tv session_token plain no_colon some_jti)

present_nonempty : (jti : Text) → is_empty jti ≡ false → present (some jti) ≡ some jti
present_nonempty jti h = rw h

created_token :
    (k : Crypto) (session_token : Text) (p : JwtPayload) (jti : Text)
    → k.session session_token ≡ some p
    → p.jti ≡ some jti
    → is_empty jti ≡ false
    → create_csrf_token_from_session k session_token ≡ some (csrf_token k (csrf_payload jti p))
unfolding create_csrf_token_from_session
created_token k session_token p jti e has_jti some_jti = simp (e, has_jti, some_jti)

-- A session token that is not empty and whose session has an id without ":" and without surrogates gets
-- a CSRF token, and that token is valid for the session. The codes are base64url of UTF-8.
pub validate-create :
    (k : Crypto) (b : IsBase64Url k) (session_token : Text) (p : JwtPayload) (jti : Text)
    → is_empty session_token ≡ false
    → k.session session_token ≡ some p
    → p.jti ≡ some jti
    → is_empty jti ≡ false
    → mem_char b':' jti ≡ false
    → has_surrogate jti ≡ false
    → (csrf : Text) × (create_csrf_token_from_session k session_token ≡ some csrf)
      × (validate_csrf_token k csrf session_token ≡ true)
validate-create k b session_token p jti some_token e has_jti some_jti no_colon plain = (
  csrf_token k (csrf_payload jti p),
  created_token k session_token p jti e has_jti some_jti,
  validate_csrf_token-matches k b jti (tv_text p) session_token
        (payload-has_surrogate jti (tv_text p) plain (tv_text-has_surrogate p)) no_colon some_jti
        some_token
      ∙ simp (e, has_jti, some_jti, text_eq_refl jti, text_eq_refl (tv_text p)),
)

absurd_test : false ≡ true → ⊥
absurd_test h = cc

both_tests : (a b : Bool) → (a && b) ≡ true → (a ≡ true) × (b ≡ true)
both_tests a b h = ground arith

matches_session-SameClaims :
    (jti tv : Text) (q : JwtPayload)
    → matches_session jti tv (some q) ≡ true
    → (present q.jti ≡ some jti) × (tv_text q ≡ tv)
matches_session-SameClaims jti tv q h = elim (Option-cases (present q.jti)) [
  | inl e ↦ elim (absurd_test (sym (simp e) ∙ h)) [ ]
  | inr (j, e) ↦
      let (a, c) = both_tests (text_eq j jti) (text_eq (tv_text q) tv) (sym (simp e) ∙ h) in
      (e ∙ ap (λ t. some t) (text_eq→eq j jti a), text_eq→eq (tv_text q) tv c)
]

-- The CSRF token of one session, whose id is set and has no ":" and no surrogate, is accepted with another
-- session only if both sessions have the same id and the same token version. The codes are base64url of
-- UTF-8.
pub validate-create-SameClaims :
    (k : Crypto) (b : IsBase64Url k) (first second : Text) (p q : JwtPayload) (jti : Text)
    → is_empty second ≡ false
    → k.session first ≡ some p
    → k.session second ≡ some q
    → p.jti ≡ some jti
    → is_empty jti ≡ false
    → mem_char b':' jti ≡ false
    → has_surrogate jti ≡ false
    → (csrf : Text) → create_csrf_token_from_session k first ≡ some csrf
    → validate_csrf_token k csrf second ≡ true
    → SameClaims p q
unfolding SameClaims
validate-create-SameClaims k b first second p q jti some_token e f has_jti some_jti no_colon plain
      csrf created valid =
    let same : csrf_token k (csrf_payload jti p) ≡ csrf =
      ap (λ o. get_or o []) (sym (created_token k first p jti e has_jti some_jti) ∙ created) in
    let m : matches_session jti (tv_text p) (k.session second) ≡ true =
      sym (
        validate_csrf_token-matches k b jti (tv_text p) second
          (payload-has_surrogate jti (tv_text p) plain (tv_text-has_surrogate p)) no_colon some_jti
          some_token)
      ∙ ap (λ c. validate_csrf_token k c second) same
      ∙ valid in
    let (j, t) =
      matches_session-SameClaims jti (tv_text p) q
        (ap (matches_session jti (tv_text p)) (sym f) ∙ m) in
    (
      ap present has_jti ∙ present_nonempty jti some_jti ∙ sym j,
      show_int-injective (get_or p.tv (pos 0)) (get_or q.tv (pos 0)) (sym t),
    )

check_payload-signed :
    (k : Crypto) (session_token sig : Text) (payload : Option Text)
    → check_payload k session_token sig payload ≡ true
    → (t : Text) × (payload ≡ some t) × (sig ≡ k.sign t)
check_payload-signed k session_token sig none h = elim (absurd_test h) [ ]
check_payload-signed k session_token sig (some t) h = (
  t,
  refl,
  text_eq→eq sig (k.sign t)
      (both_tests (text_eq sig (k.sign t)) (check_claims k session_token t (index_of b':' t)) h).0,
)

-- Nobody gets past the check without a signature: an accepted CSRF token is a code, ".", and the
-- signature of the text that the code stands for.
pub validate_csrf_token-signed :
    (k : Crypto) (csrf session_token : Text)
    → validate_csrf_token k csrf session_token ≡ true
    → (code payload : Text) × (k.decode code ≡ some payload)
      × (csrf ≡ code ++ b'.' ∷ k.sign payload)
unfolding validate_csrf_token
validate_csrf_token-signed k csrf session_token h =
    let checked : check_token k csrf session_token (last_index_of b'.' csrf) ≡ true =
      ground arith in
    elim (Option-cases (last_index_of b'.' csrf)) [
      | inl e ↦ elim (absurd_test (sym (ap (check_token k csrf session_token) e) ∙ checked)) [ ]
      | inr (dot, e) ↦
          let (t, d, sig) =
            check_payload-signed k session_token (drop (suc dot) csrf) (k.decode (take dot csrf))
              (both_tests (ltb 0 dot)
                (check_payload k session_token (drop (suc dot) csrf) (k.decode (take dot csrf)))
                (sym (ap (check_token k csrf session_token) e) ∙ checked)).1 in
          (
            take dot csrf,
            t,
            d,
            split_at_last_index b'.' dot csrf e ∙ ap (λ r. take dot csrf ++ b'.' ∷ r) sig,
          )
    ]
