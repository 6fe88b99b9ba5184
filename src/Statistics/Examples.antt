-- ===== src/Statistics/Examples.antt =====
-- Refreshes of the gauges of a phone whose processors were busy for three quarters of the time.
use adbq.Prelude.{
  ℕ, ◌+◌, ◌≡◌, refl, arith, [], ◌∷◌, none, some, true, Text, codes, text_eq, has_prefix, Lacks,
}
use adbq.Prelude.Int.{ℤ, pos}
use adbq.Dict.{lookup}
use adbq.Strings.{fields, split, trim_space, trim_prefix, contains}
use adbq.FactStore.{no_capabilities, Client, cached_fact, nul, remember_fact}
use adbq.FactStore.Domains.{Domain, invalidate_domains}
use adbq.FactStore.Resolver.{ok}
use adbq.Root.{Reply}
use adbq.Processes.{cut_marks}
use adbq.Processes.Int64.{int_value, add64, sub64}
use adbq.Statistics.{
  Floats, part_of, atoi64, parse_cpu_sample, cpu_percent, human_to_kb, parse_data_df,
}
use adbq.Statistics.Slow.{StatsSlow, no_slow, stats_slow_ttl, slow_fact, parse_stats_slow}
use adbq.Statistics.Snapshot.{apply_stats_fast}
use adbq.Statistics.Reading.{read_slow, get_stats}
use adbq.Statistics.Gauges.{IsPercent, get_stats-IsPercent}
use adbq.Statistics.Refresh.{Shows, get_stats-get_stats}

-- floats without a fraction
abbrev whole_floats : Floats ℤ
whole_floats = record {
  zero_float = pos 0;
  parse_float = λ t. some (int_value t);
  times = λ f m d. f;
  to_int64 = λ f. f;
}

abbrev phone : Text
phone = codes "R58M"

-- the phone answers every command alike, and counts them
abbrev answer : Text → ℕ → Reply × ℕ
answer cmd d =
    (record { out = codes "cpu  10 0 10 80\nlevel: 80\n@@@\ncpu  40 0 55 105"; err = none }, d + 1)

abbrev known : Client StatsSlow
known = record {
  facts = [];
  caps = (phone, record no_capabilities { sdk = pos 30 }) ∷ [];
  su_styles = [];
  su_failed_at = [];
  adb_rooted = [];
}

abbrev charged : StatsSlow
charged = record no_slow { battery_level = pos 80; battery_found = true }

busy :
    cpu_percent
      (parse_cpu_sample (codes "intr 5\ncpu  10 0 10 80"))
      (parse_cpu_sample (codes "cpu  40 0 55 105"))
    ≡ some (record { part = pos 75; whole = pos 100 })
unfolding cpu_percent parse_cpu_sample split fields has_prefix atoi64 trim_space int_value add64
    sub64
busy = refl

gingerbread :
    parse_data_df
      (whole_floats)
      (codes "Filesystem  Size  Used  Free  Blksize\n/data  7K  2K  5K  4096\n")
    ≡ some (pos 7, pos 5)
unfolding parse_data_df split fields contains has_prefix atoi64 trim_space int_value text_eq
    human_to_kb
gingerbread = refl

read : read_slow whole_floats answer phone 0 ≡ (ok charged, 1)
unfolding read_slow parse_data_df parse_stats_slow part_of cut_marks split fields contains
    has_prefix atoi64 trim_space trim_prefix int_value text_eq human_to_kb
read = refl

read_again : read_slow whole_floats answer phone 2 ≡ (ok charged, 3)
unfolding read_slow parse_data_df parse_stats_slow part_of cut_marks split fields contains
    has_prefix atoi64 trim_space trim_prefix int_value text_eq human_to_kb
read_again = refl

miss : cached_fact known slow_fact phone [] stats_slow_ttl 5 ≡ none
unfolding cached_fact lookup
miss = refl

known-caps : lookup phone known.caps ≡ some (record no_capabilities { sdk = pos 30 })
unfolding lookup text_eq
known-caps = refl

get_stats-IsPercent_example :
    IsPercent (get_stats whole_floats answer phone 5 6 known 0).0.cpu_percent
get_stats-IsPercent_example = get_stats-IsPercent whole_floats answer phone 5 6 known 0

no_nul : Lacks nul phone
no_nul = omega arith

get_stats-get_stats_example :
    let c' = (get_stats whole_floats answer phone 5 6 known 0).1 in
    let dropped = invalidate_domains c' phone (Domain.storage ∷ []) in
    Shows whole_floats answer phone
      (record no_capabilities { sdk = pos 30 })
      (pos 80)
      c'
      3
      (get_stats whole_floats answer phone 9 10 c' 2)
    × Shows whole_floats answer phone
        (record no_capabilities { sdk = pos 30 })
        (pos 80)
        (remember_fact dropped slow_fact phone [] 12 charged)
        4
        (get_stats whole_floats answer phone 9 12 dropped 2)
get_stats-get_stats_example =
    get_stats-get_stats whole_floats answer phone (record no_capabilities { sdk = pos 30 }) charged
      charged 5 6 9 10 12 known 0 1 2 3 no_nul known-caps miss read refl (omega arith) read_again
      refl

shown :
    (get_stats whole_floats answer phone 5 6 known 0).0.cpu_percent
    ≡ record { part = pos 75; whole = pos 100 }
unfolding get_stats read_slow parse_data_df parse_stats_slow part_of cut_marks split fields contains
    has_prefix atoi64 trim_space trim_prefix int_value text_eq human_to_kb cpu_percent
    parse_cpu_sample add64 sub64 apply_stats_fast cached_fact lookup
shown = refl
