-- ===== src/Trail/Filter.antt =====
-- The query of `recall`, and the records that it wants (src/fava_trails/trail.py).
use fava_trails.Base.{
  ℕ, String, Bool, true, false, ◌&&◌, ◌||◌, Option, none, some, List, [], ◌∷◌, ◌==◌, or_else,
  is_some, map, all_of, contains,
}
use fava_trails.Base.Text.{concat, is_empty, strip_prefix, has_infix}
use fava_trails.Models.Enums.{source_value}
use fava_trails.Models.Thought.{ThoughtRecord}

-- the keys of the scope filter that are given
pub record ScopeFilter : Type 0 where
  pub project : Option (Option String)
  pub branch : Option (Option String)
  pub tags : Option (List String)

-- `str.lower`, `str.split` and the order in which a set of texts is traversed
pub record Texts : Type 0 where
  pub lower : String → String
  pub split : String → List String
  pub set_order : List String → List String

pub record Query : Type 0 where
  pub query : String
  pub namespace : Option String
  pub scope : Option ScopeFilter
  pub include_relationships : Bool
  pub limit : ℕ

same_text : Option String → Option String → Bool
same_text none none = true
same_text (some a) (some b) = a == b
same_text _ _ = false

-- a given key has to be met
is_met : Option (Option String) → Option String → Bool
unfolding same_text
is_met none value = true
is_met (some wanted) value = same_text value wanted

unfoldable pub matches_scope : Option ScopeFilter → ThoughtRecord → Bool
unfolding is_met
matches_scope none r = true
matches_scope (some scope) r =
    let meta = r.frontmatter.metadata in
    is_met scope.project meta.project
    && is_met scope.branch meta.branch
    && all_of (λ tag. contains tag meta.tags) (or_else scope.tags [])

-- `sep.join(parts)` for a blank
joined : List String → String
joined [] = ""
joined (s ∷ []) = s
joined (s ∷ t ∷ rest) = concat (s ∷ " " ∷ joined (t ∷ rest) ∷ [])

searchable : Texts → ThoughtRecord → String
unfolding joined
searchable texts r =
    let fm = r.frontmatter in
    joined (
      texts.lower r.content
      ∷ texts.lower fm.thought_id
      ∷ source_value fm.source_type
      ∷ texts.lower fm.agent_id
      ∷ texts.lower (or_else fm.metadata.project "")
      ∷ texts.lower (or_else fm.metadata.branch "")
      ∷ joined (map texts.lower fm.metadata.tags)
      ∷ [])

unfoldable pub matches_query : Texts → String → ThoughtRecord → Bool
unfolding searchable has_infix
matches_query texts query r =
    is_empty query
    || all_of (λ word. has_infix word (searchable texts r)) (texts.split (texts.lower query))

-- `path.is_relative_to(directory)` for a path of a thought, which lies below a directory
unfoldable pub is_within : String → String → Bool
unfolding strip_prefix
is_within directory path = is_some (strip_prefix (concat (directory ∷ "/" ∷ [])) path)
