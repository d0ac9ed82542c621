-- ===== src/Commands/Results.antt =====
-- The results of commands keep their id and are well formed.
use coffee_order_system.Prelude.{
  ℕ, ◌≡◌, refl, Bool, false, List, arith, nat_eq, text_eq, texts_eq, int_eq, Text, is_negative,
}
use coffee_order_system.Outcome.{CheckResult, state_eq}
use coffee_order_system.Checks.{is_bad_id, is_bad_duration}
use coffee_order_system.Checks.Contract.{IsWellFormed}
use coffee_order_system.Commands.{Finished, command_result, environment_result, require_seventeen}

pub command_lem :
    (id : Text) (command : List Text) (f : Finished) (d : ℕ)
    → is_bad_id id ≡ false
    → ((command_result id command f d).check_id ≡ id) × IsWellFormed (command_result id command f d)
unfolding command_result is_bad_duration is_negative
command_lem id command (Finished.os_error e) d h = (refl, (h, refl))
command_lem id command (Finished.completed code out error) d h = (refl, (h, refl))

pub environment_lem :
    (id : Text) (command : List Text) (f : Finished) (d : ℕ)
    → is_bad_id id ≡ false
    → ((environment_result id command f d).check_id ≡ id)
      × IsWellFormed (environment_result id command f d)
unfolding environment_result is_bad_duration is_negative
environment_lem id command (Finished.os_error e) d h = (refl, (h, refl))
environment_lem id command (Finished.completed code out error) d h = (refl, (h, refl))

pub seventeen_lem :
    (is_word : ℕ → Bool) (id : Text) (c : CheckResult)
    → (c.check_id ≡ id) × IsWellFormed c
    → ((require_seventeen is_word c).check_id ≡ id) × IsWellFormed (require_seventeen is_word c)
unfolding require_seventeen
seventeen_lem is_word id c h = ground arith
