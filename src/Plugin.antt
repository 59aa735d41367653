-- ===== src/Plugin.antt =====
-- django_absurd/pytest_plugin.py: the two sweeps at the start of a test session.
use django_absurd.Prelude.{
  String, Bool, true, false, ◌||◌, not, ◌≡◌, refl, sym, ap, ◌∙◌, Option, none, some, ◌==◌, is_empty,
  if◌then◌else◌, eq_iff,
}
use django_absurd.Effect.{
  Result, ok, raised, Run, pure, and_then, ok-injective, >>=-eq-ok, >>=-after, ◌>>=◌, ◌>>◌,
}
use django_absurd.Settings.{resolve_absurd_database}
use django_absurd.PgCron.Detection.{Environment}
use django_absurd.PgCron.Catalog.{PgCron, flush_database_jobs}
use django_absurd.PgCron.Rows.{Orm}
use django_absurd.Flush.{Flusher, reset_fake_now}

-- A test session: whether Django's settings are configured, the name of an alias's database in its
-- settings, pytest-django's `django_db_setup` and the lifting of its block of the database.
pub record Session (W : Type 0) : Type 0 where
  pub is_configured : Bool
  pub settings_name : String → W → String
  pub django_db_setup : Run W (Unit {0})
  pub unblock : Run W (Unit {0}) → Run W (Unit {0})

module _ {W : Type 0} (session : Session W) (env : Environment) where
  open session use {is_configured, settings_name, django_db_setup, unblock}

  -- The alias, or none where the setup did not swap the name of its database.
  unfoldable pub resolve_provisioned_alias : Run W (Option String)
  resolve_provisioned_alias w =
      let alias = resolve_absurd_database env.backends in
      (do
        django_db_setup
        λ w'.
            (ok (if settings_name alias w' == settings_name alias w then none else some alias), w'))
        w

  abbrev sweep_on : (String → Run W (Unit {0})) → Option String → Run W (Unit {0})
  sweep_on sweep none = pure tt
  sweep_on sweep (some alias) = unblock (sweep alias)

  abbrev swept : (guard : Bool) → (String → Run W (Unit {0})) → Run W (Unit {0})
  swept guard sweep = if guard then pure tt else (resolve_provisioned_alias >>= sweep_on sweep)

  unfoldable pub sweep_orphaned_pg_cron_jobs : PgCron W → (is_installed : Bool) → Run W (Unit {0})
  sweep_orphaned_pg_cron_jobs cron is_installed =
      swept (not is_configured || not is_installed) (flush_database_jobs env cron)

  unfoldable pub sweep_stranded_fake_now : PgCron W → Orm W → Flusher W → Run W (Unit {0})
  sweep_stranded_fake_now cron orm flusher =
      swept (not is_configured || is_empty env.backends) (reset_fake_now flusher env cron orm)

  -- What `resolve_provisioned_alias` reads off the world that the setup leaves.
  abbrev alias_after : W → Unit {0} → Run W (Option String)
  alias_after w _ w' =
      let alias = resolve_absurd_database env.backends in
      (ok (if settings_name alias w' == settings_name alias w then none else some alias), w')

  resolved_world : (w : W) (r : Result (Unit {0})) (w' : W) → (and_then r (alias_after w) w').1 ≡ w'
  resolved_world w (ok _) w' = refl
  resolved_world w (raised e) w' = refl

  -- An alias is found only where its name was swapped.
  unswapped :
      (w : W) {o : Option String}
      → settings_name (resolve_absurd_database env.backends) (django_db_setup w).1
        ≡ settings_name (resolve_absurd_database env.backends) w
      → (resolve_provisioned_alias w).0 ≡ ok o
      → o ≡ none
  unfolding resolve_provisioned_alias
  unswapped w same h =
      let alias = resolve_absurd_database env.backends in
      let (_, _, s) = >>=-eq-ok django_db_setup (alias_after w) w h in
      sym (
        ok-injective (
          sym (
            ap (λ b. ok (if b then none else some alias))
              ((eq_iff (settings_name alias (django_db_setup w).1) (settings_name alias w)).1 same))
          ∙ ap (λ r. r.0) (sym s)
          ∙ h))

  module _ {S : Type 0} (state : W → S) where
    swept-live :
        (guard : Bool) (sweep : String → Run W (Unit {0})) (w : W)
        → settings_name (resolve_absurd_database env.backends) (django_db_setup w).1
          ≡ settings_name (resolve_absurd_database env.backends) w
        → state (django_db_setup w).1 ≡ state w
        → state (swept guard sweep w).1 ≡ state w
    unfolding resolve_provisioned_alias
    swept-live true sweep w same idle = refl
    swept-live false sweep w same idle =
        >>=-after (λ w'. state w' ≡ state w) resolve_provisioned_alias (sweep_on sweep) w
          (ap state (resolved_world w (django_db_setup w).0 (django_db_setup w).1) ∙ idle)
          (λ o h.
            ap (λ o. state (sweep_on sweep o (resolve_provisioned_alias w).1).1)
              (unswapped w same h)
            ∙ ap state (resolved_world w (django_db_setup w).0 (django_db_setup w).1)
            ∙ idle)

    -- Where the setup leaves the name of Absurd's database as it was, and leaves a state of the world
    -- alone, as in a session that provisioned no test database: neither sweep touches that state.
    pub sweeps-live :
        (cron : PgCron W) (is_installed : Bool) (orm : Orm W) (flusher : Flusher W) (w : W)
        → settings_name (resolve_absurd_database env.backends) (django_db_setup w).1
          ≡ settings_name (resolve_absurd_database env.backends) w
        → state (django_db_setup w).1 ≡ state w
        → (state (sweep_orphaned_pg_cron_jobs cron is_installed w).1 ≡ state w)
          × (state (sweep_stranded_fake_now cron orm flusher w).1 ≡ state w)
    unfolding sweep_orphaned_pg_cron_jobs sweep_stranded_fake_now
    sweeps-live cron is_installed orm flusher w same idle = (
      swept-live (not is_configured || not is_installed) (flush_database_jobs env cron) w same idle,
      swept-live (not is_configured || is_empty env.backends) (reset_fake_now flusher env cron orm)
          w same idle,
    )
