-- ===== src/Quests.antt =====
-- Shared/QuestState.h: how many items a quest finds on a character.
pub mod TurnIn
mod Tests
use action_rpgserver.Common.{ℕ, ◌+◌, ◌-◌, ◌%◌, ◌^◌, min, ◌&&◌, List, [], ◌∷◌, ltb, if◌then◌else◌}
use action_rpgserver.Common.Text.{Text, text_beq}
use action_rpgserver.Inventory.Stacks.{Stack, equipped_container}
use action_rpgserver.Progression.{u32_max}

-- The loop of `Held`.
unfoldable pub count_held : Text → List Stack → ℕ → ℕ
count_held id [] count = count
count_held id (item ∷ items) count = count_held id items (
    if text_beq item.definition_id id && ltb item.container equipped_container
    then (count + item.count) % 2 ^ 64
    else count)

unfoldable pub held_items : List Stack → Text → ℕ
held_items items id = min (count_held id items 0) u32_max
