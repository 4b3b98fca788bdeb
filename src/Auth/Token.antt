-- ===== src/Auth/Token.antt =====
-- auth/src/tokens/issuer.ts: the claims of an access token.
use irsforge.Base.{ℕ, ◌+◌, String, List}
use irsforge.Auth.RefreshStore.{RefreshSession, seconds}

-- The settings that the handlers take from the configuration. jose's signature is a parameter
-- of the handlers, `sign : Claims → String`.
pub record Settings : Type 0 where
  pub issuer : String
  pub token_ttl_seconds : ℕ
  pub refresh_ttl_seconds : ℕ
  pub ledger_id : String
  pub application_id : String

pub record Claims : Type 0 where
  pub ledger_id : String
  pub application_id : String
  pub act_as : List String
  pub read_as : List String
  pub org : String
  pub issuer : String
  pub subject : String
  pub issued_at : ℕ
  pub expires_at : ℕ

-- `createDamlToken`: what is signed for a user, at the clock's reading.
unfoldable pub daml_claims : Settings → RefreshSession → ℕ → Claims
daml_claims c who now = record {
  ledger_id = c.ledger_id;
  application_id = c.application_id;
  act_as = who.act_as;
  read_as = who.read_as;
  org = who.org_id;
  issuer = c.issuer;
  subject = who.user_id;
  issued_at = seconds now;
  expires_at = seconds now + c.token_ttl_seconds;
}
