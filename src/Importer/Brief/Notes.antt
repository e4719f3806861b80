-- ===== src/Importer/Brief/Notes.antt =====
-- The notes that parse_brief of src/bbagent/importer/core.py captures.
use bugbounty_agent.Base.{◌≤◌, String, List, ◌∷◌, All, length}
use Prim.Native.String.{◌∷◌ as ◌∷ˢ◌}
use bugbounty_agent.Base.Text
use bugbounty_agent.Base.Text.{len}

-- At most 80 notes, of at most 400 characters each.
abbrev pub AreBounded : List String → Type 0
AreBounded notes = (length notes ≤ 80) × All (λ note. len note ≤ 400) notes
