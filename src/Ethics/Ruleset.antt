-- ===== src/Ethics/Ruleset.antt =====
-- aae/ethics/ruleset_hash.py: the frozen prompt and its hash. The files are those of the root that
-- the integrity check reads; the decoding of UTF-8 and SHA-256 are functions.
use self_spawn_agents.Prelude.{
  ◌≡◌, refl, Action, Option, none, some, [], ◌∷◌, Text, codes, text_eq, Result, ok, err,
  file_not_found,
}
use self_spawn_agents.Prelude.Dict.{Dict, lookup}
use self_spawn_agents.Prelude.Json.{JsonLibrary}
use self_spawn_agents.Schemas.Common.{World, Pydantic}
use self_spawn_agents.Schemas.Ethics.{EthicsReviewRequest, EthicsVerdict, cache_key_eq}
use self_spawn_agents.Ethics.{
  Auditor, EthicsService, cache_key, rejected, ask, answer_or_ask, review_locked,
}

-- `_default_prompt_path`, and `Path(path) if path else _default_prompt_path()`
abbrev pub default_prompt_path : Text
default_prompt_path = codes "aae/ethics/prompt.md"

abbrev pub prompt_path : Option Text → Text
prompt_path none = default_prompt_path
prompt_path (some []) = default_prompt_path
prompt_path (some (c ∷ p)) = c ∷ p

-- `read_bytes`, and what is made of the content.
abbrev pub from_file : {A : Type 0} → (Text → A) → Option Text → Result A
from_file f none = err file_not_found
from_file f (some content) = ok (f content)

unfoldable pub read_frozen_prompt : (Text → Text) → Option Text → Dict Text Text → Result Text
read_frozen_prompt decode path files = from_file decode (lookup (prompt_path path) files)

unfoldable pub frozen_prompt_hash : (Text → Text) → Option Text → Dict Text Text → Result Text
frozen_prompt_hash sha256 path files = from_file sha256 (lookup (prompt_path path) files)

module _ (py : Pydantic) (w : World) (js : JsonLibrary) (llm : Auditor)
    (decode sha256 : Text → Text) (path : Option Text) where
  -- The question, once the prompt and its hash are read.
  abbrev pub ask_with :
      Result Text → Result Text → EthicsReviewRequest → Action EthicsService EthicsVerdict
  ask_with (err x) ruleset_hash req s = (err x, s)
  ask_with (ok prompt) (err x) req s = (err x, s)
  ask_with (ok prompt) (ok ruleset_hash) req s = ask py w js llm prompt ruleset_hash req s

  abbrev pub section :
      Option EthicsVerdict
      → Dict Text Text
      → EthicsReviewRequest
      → Action EthicsService EthicsVerdict
  section (some v) files req s = (ok v, s)
  section none files req s =
      ask_with (read_frozen_prompt decode path files) (frozen_prompt_hash sha256 path files) req s

  -- The section of a review under the lock, which reads the prompt from the files each time.
  unfoldable pub review_from_files :
      Dict Text Text → EthicsReviewRequest → Action EthicsService EthicsVerdict
  review_from_files files req s = section (rejected (lookup (cache_key req) s.cache)) files req s

  -- While the file holds a content, the section is the one that is given its prompt and its hash.
  pub review_from_files-review_locked :
      (files : Dict Text Text) (content : Text) (req : EthicsReviewRequest) (s : EthicsService)
      → lookup (prompt_path path) files ≡ some content
      → review_from_files files req s
        ≡ review_locked py w js llm (decode content) (sha256 content) req s
  unfolding review_from_files review_locked read_frozen_prompt frozen_prompt_hash
  review_from_files-review_locked files content req s found =
      sections (rejected (lookup (cache_key req) s.cache))
    where
      sections :
          (o : Option EthicsVerdict)
          → section o files req s
            ≡ answer_or_ask py w js llm (decode content) (sha256 content) o req s
      sections (some v) = refl
      sections none = rw found refl
