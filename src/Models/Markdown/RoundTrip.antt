-- ===== src/Models/Markdown/RoundTrip.antt =====
-- A thought that src/fava_trails/models.py writes as Markdown and reads again.
use Prim.Native.Char.{Char, code}
use Prim.Native.String
use text.Mathlib.TextLemmas.{nil-append, cons-append, append_assoc, append-nil}
use fava_trails.Base.{
  String, ◌≡◌, refl, sym, ap, ◌∙◌, inl, inr, Bool, true, false, none, some, [], ◌∷◌, arith, nat_eq,
  Bool-cases, Option-cases,
}
use fava_trails.Base.Result.{ok}
use fava_trails.Base.Text.{
  concat, is_space, is_empty, lstrip, rstrip, strip, strip_prefix, split_once,
}
use fava_trails.Models.Thought.{ThoughtFrontmatter, ThoughtRecord}
use fava_trails.Models.Markdown.{Codec, to_markdown, from_markdown, from_parts, with_content}

infixr 5 ◌+++◌
abbrev ◌+++◌ : String → String → String
a +++ b = Prim.Native.String.◌++◌ a b

-- `s` is at least as long as `p`.
covers : String → String → Bool
covers String.[] s = true
covers (String.◌∷◌ a p) String.[] = false
covers (String.◌∷◌ a p) (String.◌∷◌ b s) = covers p s

covers-cons : (p s : String) (c : Char) → covers p s ≡ true → covers p (String.◌∷◌ c s) ≡ true
unfolding covers
covers-cons String.[] s c h = refl
covers-cons (String.◌∷◌ a p) String.[] c h = cc
covers-cons (String.◌∷◌ a p) (String.◌∷◌ b s) c h = covers-cons p s b h

covers_self : (p : String) → covers p p ≡ true
unfolding covers
covers_self String.[] = refl
covers_self (String.◌∷◌ a p) = covers_self p

covers-append : (p y : String) → covers p (y +++ p) ≡ true
covers-append p String.[] = ap (covers p) (nil-append p) ∙ covers_self p
covers-append p (String.◌∷◌ c y) =
    ap (covers p) (cons-append c y p) ∙ covers-cons p (y +++ p) c (covers-append p y)

strip_prefix-longer :
    (p s t : String) → strip_prefix p s ≡ none → covers p s ≡ true → strip_prefix p (s +++ t) ≡ none
unfolding strip_prefix covers
strip_prefix-longer String.[] s t h c = cc
strip_prefix-longer (String.◌∷◌ a p) String.[] t h c = cc
strip_prefix-longer (String.◌∷◌ a p) (String.◌∷◌ b s) t h c =
    ap (strip_prefix (String.◌∷◌ a p)) (cons-append b s t)
    ∙ elim (Bool-cases (nat_eq (code a) (code b))) [
      | inl e ↦ rw (e, strip_prefix) (strip_prefix-longer p s t (rw (e, strip_prefix) at h) c)
      | inr e ↦ rw (e, strip_prefix) refl
    ]

split_once-cons :
    (sep s : String) (c : Char)
    → split_once sep (String.◌∷◌ c s) ≡ none
    → (strip_prefix sep (String.◌∷◌ c s) ≡ none) × (split_once sep s ≡ none)
unfolding split_once
split_once-cons sep s c h = elim (Option-cases (strip_prefix sep (String.◌∷◌ c s))) [
  | inr p ↦ ground (arith, rw (p.1, split_once) at h)
  | inl n ↦ elim (Option-cases (split_once sep s)) [
    | inl m ↦ (n, m)
    | inr p ↦ ground (arith, rw (n, p.1, split_once) at h)
  ]
]

split_once-later :
    (sep s : String) (c : Char) (y rest : String)
    → strip_prefix sep (String.◌∷◌ c s) ≡ none
    → split_once sep s ≡ some (y, rest)
    → split_once sep (String.◌∷◌ c s) ≡ some (String.◌∷◌ c y, rest)
unfolding split_once
split_once-later sep s c y rest n h = rw (n, h, split_once) refl

strip_prefix_self : (p rest : String) → strip_prefix p (p +++ rest) ≡ some rest
unfolding strip_prefix
strip_prefix_self String.[] rest = ap (λ x. some x) (nil-append rest)
strip_prefix_self (String.◌∷◌ a p) rest =
    ap (strip_prefix (String.◌∷◌ a p)) (cons-append a p rest)
    ∙ elim (Bool-cases (nat_eq (code a) (code a))) [
      | inl e ↦ rw (e, strip_prefix) (strip_prefix_self p rest)
      | inr e ↦ ground (arith, e)
    ]

split_once_self :
    (a : Char) (p rest : String)
    → split_once (String.◌∷◌ a p) (String.◌∷◌ a p +++ rest) ≡ some ("", rest)
unfolding split_once
split_once_self a p rest =
    let whole = cons-append a p rest in
    let found =
      ap (strip_prefix (String.◌∷◌ a p)) (sym whole) ∙ strip_prefix_self (String.◌∷◌ a p) rest in
    ap (split_once (String.◌∷◌ a p)) whole ∙ rw (found, split_once) refl

-- Where the separator repeats its end, the first one is found behind a text without any.
split_once-append :
    (a : Char) (p t rest y : String)
    → (String.◌∷◌ a p +++ rest) ≡ (p +++ t)
    → split_once (String.◌∷◌ a p) (y +++ p) ≡ none
    → split_once (String.◌∷◌ a p) (y +++ (String.◌∷◌ a p +++ rest)) ≡ some (y, rest)
split_once-append a p t rest String.[] again h =
    ap (split_once (String.◌∷◌ a p)) (nil-append (String.◌∷◌ a p +++ rest))
    ∙ split_once_self a p rest
split_once-append a p t rest (String.◌∷◌ c y) again h =
    let sep = String.◌∷◌ a p in
    let k = split_once-cons sep (y +++ p) c (ap (split_once sep) (sym (cons-append c y p)) ∙ h) in
    let longer : String.◌∷◌ c (y +++ p) +++ t ≡ String.◌∷◌ c (y +++ (sep +++ rest)) =
      cons-append c (y +++ p) t
      ∙ ap (λ x. String.◌∷◌ c x) (append_assoc y p t ∙ ap (λ x. y +++ x) (sym again)) in
    let missed =
      ap (strip_prefix sep) (sym longer)
      ∙ strip_prefix-longer sep (String.◌∷◌ c (y +++ p)) t k.0
          (covered a p c (y +++ p) (covers-append p y)) in
    ap (split_once sep) (cons-append c y (sep +++ rest))
    ∙ split_once-later sep (y +++ (sep +++ rest)) c y rest missed
        (split_once-append a p t rest y again k.1)
  where
    covered :
        (a : Char) (p : String) (c : Char) (s : String)
        → covers p s ≡ true
        → covers (String.◌∷◌ a p) (String.◌∷◌ c s) ≡ true
    covered a p c s h = unfold covers in h

-- A text in which, with two dashes behind it, there are no three in a row.
abbrev pub IsPlain : String → Type 0
IsPlain y = split_once "---" (y +++ "--") ≡ none

split_once-dashes :
    (y rest : String) → IsPlain y → split_once "---" (y +++ ("---" +++ rest)) ≡ some (y, rest)
split_once-dashes y rest h =
    split_once-append _ "--" ("-" +++ rest) rest y (append_assoc "--" "-" rest) h

strip-space : (c : Char) (s : String) → is_space c ≡ true → strip (String.◌∷◌ c s) ≡ strip s
unfolding strip lstrip rstrip
strip-space c s h = elim (Bool-cases (is_empty (rstrip s))) [
  | inl e ↦ rw (h, e, rstrip) (ap lstrip (sym (emptied (rstrip s) e)))
  | inr e ↦ rw (h, e, rstrip) (rw (h, lstrip) refl)
]
  where
    emptied : (t : String) → is_empty t ≡ true → t ≡ ""
    emptied String.[] e = refl
    emptied (String.◌∷◌ d t) e = cc

-- a text of one space
abbrev IsSpace : String → Type 0
IsSpace String.[] = ⊥
IsSpace (String.◌∷◌ c String.[]) = is_space c ≡ true
IsSpace (String.◌∷◌ c (String.◌∷◌ _ _)) = ⊥

strip-append : (w s : String) → IsSpace w → strip (w +++ s) ≡ strip s
strip-append String.[] s h = absurd h
strip-append (String.◌∷◌ c String.[]) s h =
    ap strip (cons-append c "" s ∙ ap (λ x. String.◌∷◌ c x) (nil-append s)) ∙ strip-space c s h
strip-append (String.◌∷◌ c (String.◌∷◌ d w)) s h = absurd h

strip-newline : (s : String) → strip ("\n" +++ s) ≡ strip s
unfolding is_space
strip-newline s = strip-append "\n" s refl

with_separators :
    (d c : String)
    → concat ("---\n" ∷ d ∷ "---\n" ∷ c ∷ [])
      ≡ "---" +++ (("\n" +++ d) +++ ("---" +++ ("\n" +++ c)))
with_separators d c =
    append_assoc "---" "\n" (d +++ ("---\n" +++ (c +++ "")))
    ∙ ap (λ x. "---" +++ x)
        (ap (λ x. "\n" +++ (d +++ ("---\n" +++ x))) (append-nil c)
          ∙ ap (λ x. "\n" +++ (d +++ x)) (append_assoc "---" "\n" c)
          ∙ sym (append_assoc "\n" d ("---" +++ ("\n" +++ c))))

-- A thought comes back as it was written, but for the spaces around its content, where its
-- frontmatter is read from its own text without the spaces around it, and that text has no three
-- dashes in a row.
pub from_markdown-to_markdown :
    (codec : Codec) (fresh : ThoughtFrontmatter) (r : ThoughtRecord)
    → codec.load (strip (codec.dump r.frontmatter)) ≡ ok r.frontmatter
    → IsPlain ("\n" +++ codec.dump r.frontmatter)
    → from_markdown codec fresh (to_markdown codec r) ≡ ok (record r { content = strip r.content })
unfolding from_markdown to_markdown from_parts with_content
from_markdown-to_markdown codec fresh r h plain =
    let d = codec.dump r.frontmatter in
    let rest = ("\n" +++ d) +++ ("---" +++ ("\n" +++ r.content)) in
    let started =
      ap (strip_prefix "---") (with_separators d r.content) ∙ strip_prefix_self "---" rest in
    let split = split_once-dashes ("\n" +++ d) ("\n" +++ r.content) plain in
    rw (started, from_markdown)
      (rw (split, from_parts) (rw (strip-newline d, strip-newline r.content, h) refl))
