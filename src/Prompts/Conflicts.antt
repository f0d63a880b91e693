-- ===== src/Prompts/Conflicts.antt =====
-- wisetraceloom/prompts.py: the branch of `set_prompt_alias` behind an IntegrityError.
use wisetraceloom.Prelude.{pair_Eq, ℕ, ◌≡◌, refl, none, some, Text, text_Eq, option_Eq, nat_Eq}
use wisetraceloom.Results.{ok, err, Error}
use wisetraceloom.Sql.{Sql}
use wisetraceloom.Config.{Row, Rows, find, write_back}
use wisetraceloom.Prompts.{PromptAlias, AliasKey, Prompts, normalize_alias}
use wisetraceloom.Prompts.Promotion.{check_alias, set_prompt_alias, point_alias}
use wisetraceloom.Evaluation.{Floats, Evaluation}

module _ (sql : Sql) (lower : Text → Text) (floats : Floats) {D : Type 0} where
  open floats use {F}

  -- Where production or another alias was unset when it was checked and another session sets it
  -- before the insert, set_prompt_alias moves the pointer over the other session's, also if the
  -- checks, made on the table that it meets, refuse the move.
  pub set_prompt_alias-unchecked :
      (rival : Rows AliasKey PromptAlias → Rows AliasKey PromptAlias)
      → (slot alias : Text) (id now : ℕ) (p : Prompts) (e : Evaluation D F)
      → (u : Unit {0}) (x : Error) (winner : Row AliasKey PromptAlias)
      → let name = normalize_alias lower alias in
        let key : AliasKey = (slot, name) in
        let met : Prompts = record p { aliases = rival p.aliases } in
        let pointer : PromptAlias = record { prompt_version_id = id; updated_at = now } in
        check_alias sql lower floats slot name id p e ≡ ok u
        → check_alias sql lower floats slot name id met e ≡ err x
        → find sql key p.aliases ≡ none
        → find sql key (rival p.aliases) ≡ some winner
        → set_prompt_alias sql lower floats rival (λ t. t) slot alias id now p e ≡ (
          ok (record winner { value = pointer }),
          record p { aliases = write_back winner.id pointer (rival p.aliases) },
        )
  unfolding set_prompt_alias point_alias
  set_prompt_alias-unchecked rival slot alias id now p e u x winner fine refused f g =
      rw (set_prompt_alias, fine, point_alias, f, g, g) refl
