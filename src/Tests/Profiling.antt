-- ===== src/Tests/Profiling.antt =====
-- profiling/profiler.py: a table with a sensitive column and an open one.
use mathlib.Core.Option.{some-injective}
use mcp_text_to_sql_agent.Prelude.{
  subst, ℕ, String, true, false, Option, none, some, pos, List, [], ◌∷◌, ◌≡◌, ◌⊎◌, ◌↔◌, inr, refl,
  In, All, arith,
}
use mcp_text_to_sql_agent.Catalog.{has_table, suggest_table, columns_at}
use mcp_text_to_sql_agent.Profiling.Sensitivity.{default_sensitive_patterns}
use mcp_text_to_sql_agent.Profiling.Statements.{
  column_types, begin, set_timeout, statistics, commit, row_estimate, Connection, Sent,
  StatisticsQuery, StatisticsRow, raised, unknown_table, Returned,
}
use mcp_text_to_sql_agent.Profiling.Profiler.Column.{Profiler, statistics_query}
use mcp_text_to_sql_agent.Profiling.Profiler.{profile}
use mcp_text_to_sql_agent.Profiling.Profiler.Reading.{IsPermitted}
use mcp_text_to_sql_agent.Profiling.Profiler.Containment.{profile-IsPermitted}
use mcp_text_to_sql_agent.Profiling.Profiler.Shape.{IsAnswer, HasExtremes}
use mcp_text_to_sql_agent.Profiling.Profiler.Discretion.{IsGuardedProfile, profile-IsGuardedProfile}
use mcp_text_to_sql_agent.Profiling.Profiler.Totality.{HasRow, IsReturned, profile-IsReturned}
use mcp_text_to_sql_agent.Tests.Sample.{platform}

abbrev statistics_row : StatisticsQuery → StatisticsRow
statistics_row q = record {
  n = 100;
  non_null = 90;
  distinct_count = 3;
  lo = none;
  hi = none;
  value = some "paid";
  freq = q.min_frequency;
}

abbrev conn : Connection
conn = record {
  accepts = λ sent statement. true;
  fetch_types = λ sent schema table. some (("status", "text") ∷ ("email", "text") ∷ []);
  fetch_estimate = λ sent schema table. some (some (some (pos 100)));
  fetch_statistics = λ sent q. some (statistics_row q ∷ []);
  fetch_sample = λ sent q. some [];
}

abbrev profiler : Profiler platform
profiler = record {
  conn = conn;
  catalog = record { columns_by_table = ("orders", "email" ∷ "status" ∷ []) ∷ [] };
  settings = record {
    profile_allow_value_sampling = false;
    profile_sample_rows = 5;
    profile_scan_limit = 5000;
    profile_top_k = 5;
    profile_min_value_frequency = 5;
    profile_max_columns = 30;
    profile_max_value_chars = 40;
    profile_timeout_ms = 10000;
  };
  schema = "public";
  sensitive_patterns = default_sensitive_patterns;
  rounded_ratio = λ a b. a;
  sorted = λ xs. xs;
  repr = λ s. s;
  ends_with = λ s suffix. false;
}

same_members : (xs : List String) (a : String) → In a (profiler.sorted xs) ↔ In a xs
same_members xs a = (λ i. i, λ i. i)

extremes_null : (q : StatisticsQuery) (e : Option ℕ) → HasExtremes e (statistics_row q)
extremes_null q none = (refl, refl)
extremes_null q (some n) = tt

answers :
    (s : Sent) (q : StatisticsQuery) (rows : List StatisticsRow)
    → conn.fetch_statistics s q ≡ some rows
    → All (IsAnswer q) rows
answers s q rows h =
    subst (All (IsAnswer q)) (some-injective (statistics_row q ∷ []) rows h)
      ((inr (omega arith), extremes_null q q.extremes), tt)

profile-IsPermitted_example :
    ((has_table platform profiler.catalog "orders" ≡ false)
      × (profile platform profiler "orders" none (some (pos 3)) [] ≡ record {
        result = raised (unknown_table "orders" (suggest_table platform profiler.catalog "orders"));
        sent = [];
      }))
    ⊎ ((known : List String) × (columns_at profiler.catalog.columns_by_table "orders" ≡ some known)
        × All
            (IsPermitted platform profiler "orders" known)
            (profile platform profiler "orders" none (some (pos 3)) []).sent)
profile-IsPermitted_example =
    profile-IsPermitted platform profiler same_members "orders" none (some (pos 3))

profile-IsGuardedProfile_example :
    Returned
      (IsGuardedProfile platform profiler "orders")
      (profile platform profiler "orders" none (some (pos 3)) []).result
profile-IsGuardedProfile_example =
    profile-IsGuardedProfile platform profiler answers same_members "orders" none (some (pos 3)) []

has_row :
    (s : Sent) (q : StatisticsQuery) (rows : List StatisticsRow)
    → conn.fetch_statistics s q ≡ some rows
    → HasRow rows
has_row s q rows h = subst HasRow (some-injective (statistics_row q ∷ []) rows h) tt

profile-IsReturned_example :
    IsReturned (profile platform profiler "orders" none (some (pos 3)) []).result
unfolding has_table
profile-IsReturned_example =
    profile-IsReturned platform profiler has_row (λ s table. tt) (λ s table. tt) "orders"
      (some (pos 3)) [] refl

-- Of the two columns only the status is read.
profiled :
    (profile platform profiler "orders" none (some (pos 3)) []).sent
    ≡ column_types "public" "orders"
      ∷ begin
      ∷ set_timeout 10000
      ∷ statistics (statistics_query platform profiler "orders" "status" false 5)
      ∷ commit
      ∷ row_estimate "public" "orders"
      ∷ []
unfolding profile
profiled = refl
