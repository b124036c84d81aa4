-- ===== src/Models/Markdown.antt =====
-- `ThoughtRecord.to_markdown` and `from_markdown` of src/fava_trails/models.py.
pub mod RoundTrip
use fava_trails.Base.{String, ◌≡◌, Option, none, some, List, [], ◌∷◌}
use fava_trails.Base.Result.{Result, ok, err}
use fava_trails.Base.Text.{concat, strip, strip_prefix, split_once}
use fava_trails.Models.Thought.{ThoughtFrontmatter, ThoughtRecord}

-- What pydantic and YAML make of a frontmatter, and how they read one: an invalid one raises.
pub record Codec : Type 1 where
  pub Invalid : Type 0
  pub dump : ThoughtFrontmatter → String
  pub load : String → Result Invalid ThoughtFrontmatter

unfoldable pub to_markdown : Codec → ThoughtRecord → String
to_markdown codec r = concat ("---\n" ∷ codec.dump r.frontmatter ∷ "---\n" ∷ r.content ∷ [])

-- `ThoughtFrontmatter()` is the argument `fresh`, since it reads the clock.
module _ (codec : Codec) (fresh : ThoughtFrontmatter) where
  with_content :
      String → Result codec.Invalid ThoughtFrontmatter → Result codec.Invalid ThoughtRecord
  with_content content (err e) = err e
  with_content content (ok fm) = ok (record { frontmatter = fm; content = content })

  -- what stands behind the first separator
  unfoldable pub from_parts : String → String → Result codec.Invalid ThoughtRecord
  unfolding split_once strip with_content
  from_parts text rest = elim (split_once "---" rest) [
    | none ↦ ok (record { frontmatter = fresh; content = text })
    | some (yaml, content) ↦ with_content (strip content) (codec.load (strip yaml))
  ]

  unfoldable pub from_markdown : String → Result codec.Invalid ThoughtRecord
  unfolding strip_prefix from_parts
  from_markdown text = elim (strip_prefix "---" text) [
    | none ↦ ok (record { frontmatter = fresh; content = text })
    | some rest ↦ from_parts text rest
  ]
