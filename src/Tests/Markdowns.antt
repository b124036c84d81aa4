-- ===== src/Tests/Markdowns.antt =====
-- A draft that is written and read.
use fava_trails.Base.{◌≡◌, refl, ◌==◌, if◌then◌else◌}
use fava_trails.Base.Result.{ok, err}
use fava_trails.Base.Text.{split_once, strip}
use fava_trails.Models.Enums.{draft}
use fava_trails.Models.Thought.{ThoughtRecord, default_frontmatter}
use fava_trails.Models.Markdown.{Codec, to_markdown, from_markdown}
use fava_trails.Models.Markdown.RoundTrip.{IsPlain, from_markdown-to_markdown}
use fava_trails.Tests.Samples.{thought}

abbrev record_ : ThoughtRecord
record_ = record (thought "D" "alice" draft) { content = "text\n" }

abbrev codec : Codec
codec = record {
  Invalid = Unit;
  dump = λ fm. "thought_id: D\n";
  load = λ s. if s == "thought_id: D" then ok record_.frontmatter else err tt;
}

written : to_markdown codec record_ ≡ "---\nthought_id: D\n---\ntext\n"
unfolding to_markdown
written = refl

plain : IsPlain "\nthought_id: D\n"
unfolding split_once
plain = refl

loaded : codec.load (strip (codec.dump record_.frontmatter)) ≡ ok record_.frontmatter
unfolding strip
loaded = refl

from_markdown-to_markdown_example :
    from_markdown codec (default_frontmatter "E" 9) (to_markdown codec record_)
    ≡ ok (record record_ { content = strip record_.content })
from_markdown-to_markdown_example =
    from_markdown-to_markdown codec (default_frontmatter "E" 9) record_ loaded plain
