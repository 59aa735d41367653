-- ===== src/Tests/Grammar.antt =====
-- Tests of the grammar of a pg_cron schedule.
use django_absurd.Prelude.{String, ◌≡◌, refl, true, nat_beq}
use django_absurd.Prelude.Texts.{starts_with}
use django_absurd.Effect.{Result, ok}
use django_absurd.PgCron.Validators.{
  validate_pg_cron_schedule, refused, skip, strip, strip_end, read_interval, read_sign, read_number,
  read_digits, after_word, validate_interval_seconds, validate_fields, has_unsupported_syntax,
  field_count,
}

abbrev validate : String → Result (Unit {0})
validate = validate_pg_cron_schedule (λ n. nat_beq n b' ') (λ _. true)

interval : validate " +30Seconds " ≡ ok tt
unfolding validate_pg_cron_schedule strip strip_end skip starts_with read_interval read_sign
    read_number read_digits after_word validate_interval_seconds
interval = refl

fields : validate "0 2 * * fri" ≡ ok tt
unfolding validate_pg_cron_schedule strip strip_end skip starts_with read_interval read_sign
    read_number read_digits after_word validate_fields has_unsupported_syntax field_count
fields = refl

sixth : validate "0 2 * * * *" ≡ refused
unfolding validate_pg_cron_schedule strip strip_end skip starts_with read_interval read_sign
    read_number read_digits after_word validate_fields has_unsupported_syntax field_count
sixth = refl

last_day : validate "0 2 L * *" ≡ refused
unfolding validate_pg_cron_schedule strip strip_end skip starts_with read_interval read_sign
    read_number read_digits after_word validate_fields has_unsupported_syntax field_count
last_day = refl
