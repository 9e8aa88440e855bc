-- ===== src/Startup/Defaults.antt =====
-- The defaults of a release build of the ingestor.
use tantylla.Base.{◌≡◌, refl, ◌⊎◌, inl, inr, String, true, false, none, some, arith}
use tantylla.Base.Assoc.{lookup}
use tantylla.Base.Text.{contains_char}
use tantylla.Startup.Args.{Clap, Given, delimited, parse_ingestor_args}

module _ (clap : Clap) where
  refused_safety_interval : clap.parse_u64 "30_000" ≡ none
  refused_safety_interval = clap.no_underscore "30_000" (unfold contains_char in refl)

  refused_sleep_interval : clap.parse_u64 "10_000" ≡ none
  refused_sleep_interval = clap.no_underscore "10_000" (unfold contains_char in refl)

  release-refuses :
      (given : Given)
      → (lookup "safety-interval" given ≡ none) ⊎ (lookup "sleep-interval" given ≡ none)
      → parse_ingestor_args clap false given ≡ none
  unfolding parse_ingestor_args
  release-refuses given (inl h) = ground (arith, h, refused_safety_interval)
  release-refuses given (inr h) = ground (arith, h, refused_sleep_interval)

  -- Without the two intervals and the options for tests, a release build of the ingestor refuses its options,
  -- whatever else is given, and a debug build takes the contact points, the table and the nodes, with
  -- intervals of 500 milliseconds.
  pub parse_ingestor_args-defaults :
      (given : Given) (uri table nodes : String)
      → lookup "scylla-uri" given ≡ some uri
      → lookup "table-name" given ≡ some table
      → lookup "search-nodes" given ≡ some nodes
      → lookup "safety-interval" given ≡ none
      → lookup "sleep-interval" given ≡ none
      → lookup "test-event-port" given ≡ none
      → lookup "start-timestamp-micros" given ≡ none
      → clap.parse_u64 "500" ≡ some 500
      → (parse_ingestor_args clap false given ≡ none)
        × (parse_ingestor_args clap true given
            ≡ some (record {
              scylla_uri = delimited uri;
              table_name = table;
              search_nodes = delimited nodes;
              safety_interval = 500;
              sleep_interval = 500;
              test_event_port = none;
              start_timestamp_micros = none;
            }))
  unfolding parse_ingestor_args
  parse_ingestor_args-defaults given uri table nodes a b c d e f g h =
      (release-refuses given (inl d), ground (arith, a, b, c, d, e, f, g, h))
