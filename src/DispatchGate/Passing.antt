-- ===== src/DispatchGate/Passing.antt =====
-- Which requests the gate of kazenai/_dispatch_gate.py lets through.
use kazenai_core.Base.{
  ℕ, ◌≡◌, ◌≢◌, refl, sym, ◌∙◌, ◌⊎◌, ◌↔◌, inl, inr, Bool, true, List, [], ◌∷◌, String, if◌then◌else◌,
  str_eq, eq_iff, arith, any, Bool-cases,
}
use kazenai_core.Base.Text.{concat}
use kazenai_core.DispatchGate.Paths.{starts_with-concat, concat_assoc, split_slash, has_char}
use kazenai_core.DispatchGate.{
  DispatchGate, normalize_path, segments_match, matches, is_under, prefix_match, is_safe_method,
  free_posts, endpoint, is_authorized, authorize, check,
}

-- A path is under a prefix when it is the prefix, or goes on after it with a slash.
is_under_iff :
    (path prefix : String)
    → (is_under path prefix ≡ true)
      ↔ ((path ≡ prefix) ⊎ ((rest : String) × (path ≡ concat prefix (concat "/" rest))))
unfolding is_under
is_under_iff path prefix = (
  λ e. elim (Bool-cases (str_eq path prefix)) [
    | inl h ↦ inl ((eq_iff path prefix).0 h)
    | inr h ↦
        let (rest, same) = (starts_with-concat (concat prefix "/") path).0 (ground arith) in
        inr (rest, same ∙ concat_assoc prefix "/" rest)
  ],
  λ cases. elim cases [
    | inl same ↦ let e = (eq_iff path prefix).1 same in ground arith
    | inr (rest, same) ↦
        let e =
          (starts_with-concat (concat prefix "/") path).1
            (rest, same ∙ sym (concat_assoc prefix "/" rest)) in
        ground arith
  ],
)

-- An entry of the caller's list of unmetered endpoints allows an endpoint exactly when the endpoint is,
-- as text, the normalized entry, or the normalized entry followed by a slash and anything else. So no
-- endpoint whose text only begins like the entry is allowed; and the entry `/` allows itself and what
-- begins with two slashes, and no other.
pub prefix_match_iff :
    (path prefix : String)
    → (prefix_match path prefix ≡ true) ↔ (
        (path ≡ normalize_path prefix)
        ⊎ ((rest : String) × (path ≡ concat (normalize_path prefix) (concat "/" rest))))
unfolding prefix_match
prefix_match_iff path prefix = is_under_iff path (normalize_path prefix)

-- Segments agree one by one.
pub data Fits : List String → List String → Type 0 where
  fits_end : Fits [] []
  fits_any : {have want : List String} (h : String) → Fits have want → Fits (h ∷ have) ("*" ∷ want)
  fits_same : {have want : List String} (h : String) → Fits have want → Fits (h ∷ have) (h ∷ want)

segments_match→Fits : (have want : List String) → segments_match have want ≡ true → Fits have want
unfolding segments_match
segments_match→Fits [] [] e = fits_end
segments_match→Fits [] (w ∷ want) e = absurd (ground arith)
segments_match→Fits (h ∷ have) [] e = absurd (ground arith)
segments_match→Fits (h ∷ have) (w ∷ want) e =
    let rest = segments_match→Fits have want (ground arith) in
    elim (Bool-cases (str_eq w "*")) [
      | inl k ↦ rw ((eq_iff w "*").0 k) (fits_any h rest)
      | inr k ↦ rw ((eq_iff w h).0 (ground arith)) (fits_same h rest)
    ]

Fits→segments_match : {have want : List String} → Fits have want → segments_match have want ≡ true
unfolding segments_match
Fits→segments_match fits_end = refl
Fits→segments_match (fits_any h k) = let rest = Fits→segments_match k in ground arith
Fits→segments_match (fits_same {have} {want} h k) =
    let rest = Fits→segments_match k in let same = (eq_iff h h).1 refl in ground arith

-- An endpoint matches a pattern with a star exactly when their segments agree one by one, the star
-- agreeing with any one segment.
pub matches-Fits :
    (path pattern : String)
    → has_char b'*' (normalize_path pattern) ≡ true
    → (matches path pattern ≡ true) ↔ Fits (split_slash path) (split_slash (normalize_path pattern))
unfolding matches
matches-Fits path pattern star = rw star (
  segments_match→Fits (split_slash path) (split_slash (normalize_path pattern)),
  Fits→segments_match,
)

one-of :
    (a b c d : Bool)
    → ((if a then true else if b then true else if c then true else d) ≡ true)
      ↔ ((a ≡ true) ⊎ (b ≡ true) ⊎ (c ≡ true) ⊎ (d ≡ true))
one-of a b c d = ground arith

-- A request passes exactly when a wrapper of this client is dispatching it, its method never starts
-- paid work, its endpoint is one of the free ones, or the caller has named its endpoint.
pub check-passes :
    (gate : DispatchGate) (authorized : List ℕ) (method url_path : String)
    → (check gate authorized method url_path ≡ true) ↔ (
        (is_authorized gate authorized ≡ true)
        ⊎ (is_safe_method method ≡ true)
        ⊎ (any (matches (endpoint gate url_path)) free_posts ≡ true)
        ⊎ (any (prefix_match (endpoint gate url_path)) gate.allow_unmetered ≡ true))
unfolding check
check-passes gate authorized method url_path =
    one-of (is_authorized gate authorized) (is_safe_method method)
      (any (matches (endpoint gate url_path)) free_posts)
      (any (prefix_match (endpoint gate url_path)) gate.allow_unmetered)

-- A dispatch that another client's wrapper authorized decides nothing for this client: its gate
-- answers as it does outside that wrapper.
pub check-authorize :
    (gate other : DispatchGate) (authorized : List ℕ) (method url_path : String)
    → other.capability ≢ gate.capability
    → check gate (authorize other authorized) method url_path
      ≡ check gate authorized method url_path
unfolding check
check-authorize gate other authorized method url_path apart = ground arith
