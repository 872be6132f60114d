-- ===== src/Worker/Outside.antt =====
-- What both workers hear when they call a target.
use sde_thp.Prelude.{ℕ, String}

-- The call of a target: it gives no response; a redirect is not followed, which gives a response
-- without its body and an error; the body of its response cannot be read to the end (with the
-- part that was read); or it gives a response. A failure has an error's text.
pub data Target : Type 0 where
  unreachable : String → Target
  not_followed : ℕ → String → Target
  cut_off : ℕ → String → String → Target
  response : ℕ → String → Target
