-- ===== src/Review/Extraction.antt =====
-- The object that `_extract_json_from_llm_response` of src/fava_trails/trust_gate.py cuts out of a
-- reply with text before and behind it.
use Prim.Native.Char.{Char, code}
use Prim.Native.String.{◌++◌}
use text.Mathlib.TextLemmas.{nil-append, cons-append, append_assoc}
use fava_trails.Base.{
  ℕ, String, ◌≡◌, refl, ap, ◌∙◌, sym, Bool, true, false, ◌&&◌, ◌||◌, none, some, arith, nat_eq,
}
use fava_trails.Base.Text.{is_space, is_empty, lstrip, rstrip, strip, strip_prefix}
use fava_trails.Review.Verdict.{up_to_brace, strip_fences, from_brace, object_in, extract_json}

-- Some character of the text has this code.
unfoldable pub has_code : ℕ → String → Bool
has_code n String.[] = false
has_code n (String.◌∷◌ c s) = nat_eq (code c) n || has_code n s

has_code-rstrip : (n : ℕ) (s : String) → has_code n s ≡ false → has_code n (rstrip s) ≡ false
unfolding has_code rstrip
has_code-rstrip n String.[] h = refl
has_code-rstrip n (String.◌∷◌ c s) h = ground (arith, h, has_code-rstrip n s)

up_to_brace-none : (s : String) → has_code b'}' s ≡ false → up_to_brace s ≡ none
unfolding has_code up_to_brace
up_to_brace-none String.[] h = refl
up_to_brace-none (String.◌∷◌ c s) h = ground (arith, h, up_to_brace-none s)

lstrip-kept :
    (c : Char) (s : String) → is_space c ≡ false → lstrip (String.◌∷◌ c s) ≡ String.◌∷◌ c s
unfolding lstrip
lstrip-kept c s h = ground (arith, h)

up_to_brace-last :
    (e : Char) (post : String)
    → nat_eq (code e) b'}' ≡ true
    → has_code b'}' post ≡ false
    → up_to_brace (String.◌∷◌ e post) ≡ some (String.◌∷◌ e "")
unfolding up_to_brace
up_to_brace-last e post c h = ground (arith, c, up_to_brace-none post h)

up_to_brace-behind :
    (c : Char) (s r : String)
    → up_to_brace s ≡ some r
    → up_to_brace (String.◌∷◌ c s) ≡ some (String.◌∷◌ c r)
unfolding up_to_brace
up_to_brace-behind c s r h = ground (arith, h)

rstrip-kept :
    (c : Char) (s : String)
    → (is_space c && is_empty (rstrip s)) ≡ false
    → rstrip (String.◌∷◌ c s) ≡ String.◌∷◌ c (rstrip s)
unfolding rstrip
rstrip-kept c s h = ground (arith, h)

from_brace-first :
    (c : Char) (s : String)
    → nat_eq (code c) b'{' ≡ true
    → from_brace (String.◌∷◌ c s) ≡ some (String.◌∷◌ c s)
unfolding from_brace
from_brace-first c s h = ground (arith, h)

from_brace-behind :
    (c : Char) (s t : String)
    → nat_eq (code c) b'{' ≡ false
    → from_brace s ≡ some t
    → from_brace (String.◌∷◌ c s) ≡ some t
unfolding from_brace
from_brace-behind c s t n h = ground (arith, n, h)

has_code-cons :
    (n : ℕ) (c : Char) (s : String)
    → has_code n (String.◌∷◌ c s) ≡ false
    → (nat_eq (code c) n ≡ false) × (has_code n s ≡ false)
unfolding has_code
has_code-cons n c s h = ground (arith, h)

module _ (e : Char) (post : String) where
  up_to_brace-append :
      (body : String)
      → nat_eq (code e) b'}' ≡ true
      → has_code b'}' post ≡ false
      → up_to_brace (body ++ String.◌∷◌ e post) ≡ some (body ++ String.◌∷◌ e "")
  up_to_brace-append String.[] c h =
      rw (nil-append (String.◌∷◌ e post), nil-append (String.◌∷◌ e ""))
        (up_to_brace-last e post c h)
  up_to_brace-append (String.◌∷◌ b body) c h =
      rw (cons-append b body (String.◌∷◌ e post), cons-append b body (String.◌∷◌ e ""))
        (up_to_brace-behind b (body ++ String.◌∷◌ e post) (body ++ String.◌∷◌ e "")
          (up_to_brace-append body c h))

  not_empty : (s : String) → is_empty (s ++ String.◌∷◌ e post) ≡ false
  not_empty String.[] = rw (nil-append (String.◌∷◌ e post)) refl
  not_empty (String.◌∷◌ c s) = rw (cons-append c s (String.◌∷◌ e post)) refl

  from_brace-append :
      (pre : String)
      → nat_eq (code e) b'{' ≡ true
      → has_code b'{' pre ≡ false
      → from_brace (pre ++ String.◌∷◌ e post) ≡ some (String.◌∷◌ e post)
  from_brace-append String.[] c h = rw (nil-append (String.◌∷◌ e post)) (from_brace-first e post c)
  from_brace-append (String.◌∷◌ b pre) c h =
      let n = has_code-cons b'{' b pre h in
      rw (cons-append b pre (String.◌∷◌ e post)) (
        from_brace-behind b (pre ++ String.◌∷◌ e post) (String.◌∷◌ e post) n.0
          (from_brace-append pre c n.1))

rstrip-append :
    (e : Char) (post s : String)
    → is_space e ≡ false
    → rstrip (s ++ String.◌∷◌ e post) ≡ s ++ String.◌∷◌ e (rstrip post)
rstrip-append e post String.[] h =
    rw (nil-append (String.◌∷◌ e post), nil-append (String.◌∷◌ e (rstrip post)))
      (rstrip-kept e post (ground (arith, h)))
rstrip-append e post (String.◌∷◌ c s) h =
    let rest = rstrip-append e post s h in
    let full = ap is_empty rest ∙ not_empty e (rstrip post) s in
    rw (cons-append c s (String.◌∷◌ e post), cons-append c s (String.◌∷◌ e (rstrip post)))
      (rstrip-kept c (s ++ String.◌∷◌ e post) (ground (arith, full))
        ∙ ap (λ x. String.◌∷◌ c x) rest)

first_kept :
    (c : Char) (s : String) → is_space c ≡ false → (is_space c && is_empty (rstrip s)) ≡ false
first_kept c s h = ground (arith, h)

-- a text that starts with no blank, keeps what stands up to its last brace
strip-append :
    (c e : Char) (post s : String)
    → is_space c ≡ false
    → is_space e ≡ false
    → strip (String.◌∷◌ c (s ++ String.◌∷◌ e post)) ≡ String.◌∷◌ c (s ++ String.◌∷◌ e (rstrip post))
unfolding strip
strip-append c e post s n h =
    let kept = rstrip-kept c (s ++ String.◌∷◌ e post) (first_kept c (s ++ String.◌∷◌ e post) n) in
    ap lstrip (kept ∙ ap (λ x. String.◌∷◌ c x) (rstrip-append e post s h))
    ∙ lstrip-kept c (s ++ String.◌∷◌ e (rstrip post)) n

strip_fences-none :
    (c : Char) (s : String)
    → nat_eq (code c) b'`' ≡ false
    → strip_fences (String.◌∷◌ c s) ≡ String.◌∷◌ c s
unfolding strip_fences strip_prefix
strip_fences-none c s h = ground (arith, h)

object_in-append :
    (c : Char) (s object cut : String)
    → nat_eq (code c) b'{' ≡ false
    → from_brace (String.◌∷◌ c s) ≡ some object
    → up_to_brace object ≡ some cut
    → object_in (String.◌∷◌ c s) ≡ cut
unfolding object_in strip_prefix
object_in-append c s object cut n f u = ground (arith, n, f, u)

is_space-brace : (c : Char) → nat_eq (code c) b'}' ≡ true → is_space c ≡ false
unfolding is_space
is_space-brace c h = ground (arith, h)

module _ (c o e : Char) (before body behind : String) where
  -- From a reply with text before its object, and with or without text behind it, exactly the
  -- object is read: what stands from the first opening brace `o` to the last closing brace `e`, with
  -- whatever braces, blanks and fences in between. The reply starts with neither a blank nor a
  -- backquote, there is no opening brace before the object and no closing brace behind it.
  pub extract_json-object :
      is_space c ≡ false
      → nat_eq (code c) b'`' ≡ false
      → nat_eq (code o) b'{' ≡ true
      → nat_eq (code e) b'}' ≡ true
      → has_code b'{' (String.◌∷◌ c before) ≡ false
      → has_code b'}' behind ≡ false
      → extract_json (String.◌∷◌ c (before ++ (String.◌∷◌ o (body ++ String.◌∷◌ e behind))))
        ≡ String.◌∷◌ o (body ++ String.◌∷◌ e "")
  unfolding extract_json
  extract_json-object blank fence opens closes none_before none_behind =
      let last = is_space-brace e closes in
      let s = before ++ String.◌∷◌ o body in
      let rest = rstrip (rstrip behind) in
      let same : (x : String)
          → before ++ (String.◌∷◌ o (body ++ String.◌∷◌ e x)) ≡ s ++ String.◌∷◌ e x =
        λ x. sym (
          append_assoc before (String.◌∷◌ o body) (String.◌∷◌ e x)
          ∙ ap (λ y. before ++ y) (cons-append o body (String.◌∷◌ e x))) in
      let start = ap (λ x. String.◌∷◌ c x) (same behind) in
      let stripped = ap strip start ∙ strip-append c e behind s blank last in
      let unfenced =
        ap strip_fences stripped ∙ strip_fences-none c (s ++ String.◌∷◌ e (rstrip behind)) fence in
      let again = ap strip unfenced ∙ strip-append c e (rstrip behind) s blank last in
      let n = has_code-cons b'{' c before none_before in
      let found = from_brace-append o (body ++ String.◌∷◌ e rest) before opens n.1 in
      let none_left =
        has_code-rstrip b'}' (rstrip behind) (has_code-rstrip b'}' behind none_behind) in
      ap object_in (again ∙ ap (λ x. String.◌∷◌ c x) (sym (same rest)))
      ∙ object_in-append c (before ++ String.◌∷◌ o (body ++ String.◌∷◌ e rest))
          (String.◌∷◌ o (body ++ String.◌∷◌ e rest)) (String.◌∷◌ o (body ++ String.◌∷◌ e "")) n.0
          (from_brace-behind c (before ++ String.◌∷◌ o (body ++ String.◌∷◌ e rest))
            (String.◌∷◌ o (body ++ String.◌∷◌ e rest)) n.0 found)
          (up_to_brace-behind o (body ++ String.◌∷◌ e rest) (body ++ String.◌∷◌ e "")
            (up_to_brace-append e rest body closes none_left))
