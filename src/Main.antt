-- ===== src/Main.antt =====
-- cmd/briefmail/main.go. `W` is all that the calls change: viper, the logger, and the world.
use briefmail.Base.{ℕ, ◌≡◌, refl, ap, ◌||◌, [], ◌∷◌, Bytes, codes, equal, if◌then◌else◌}
use briefmail.Outcome.{not_exist, panic, Result, ok, err, Exec, Action, pure, raise, ◌>>=◌, ◌>>◌}
use briefmail.Settings.{Viper, defaults}

-- What main.go calls of others. An error that reaches logrus.Fatalf is the error of the action.
pub record Calls (W Level : Type 0) : Type 0 where
  -- viper.SetTypeByDefaultValue, AutomaticEnv, SetEnvKeyReplacer and SetEnvPrefix
  pub prepare : W → W
  -- viper.SetConfigFile
  pub set_config_file : Bytes → W → W
  -- viper.ReadInConfig
  pub read_in_config : Action W
  -- what viper has read
  pub settings : W → Viper
  -- logrus.ParseLevel and SetLevel
  pub parse_level : Bytes → Result Level
  pub set_level : Level → W → W
  -- newStartCommand and newShellCommand, and `run` of what they return
  pub new_start_command : Exec W (Action W)
  pub new_shell_command : Exec W (Action W)
  -- flag.Usage
  pub print_usage : W → W

-- the flag `config`, and flag.Arg(0)
pub record Arguments : Type 0 where
  pub config_filename : Bytes
  pub command_name : Bytes

module _ {W Level : Type 0} (os : Calls W Level) where
  -- readConfig: os.IsNotExist is only logged
  unfoldable pub read_config : Bytes → Action W
  read_config filename w =
      let r = os.read_in_config (os.set_config_file filename w) in
      elim r.0 [ ok _ ↦ (ok tt, r.1) | err not_exist ↦ (ok tt, r.1) | err e ↦ (err e, r.1) ]

  -- setupConfig, without the log of printConfig
  unfoldable pub setup_config : Bytes → Action W
  unfolding read_config
  setup_config [] w = (ok tt, os.prepare w)
  setup_config (c ∷ cs) w = read_config (c ∷ cs) (os.prepare w)

  -- setupLogger
  unfoldable pub setup_logger : Action W
  setup_logger w = elim (os.parse_level ((os.settings w).get_string defaults (codes "log.level"))) [
    | err e ↦ (err e, w)
    | ok level ↦ (ok tt, os.set_level level w)
  ]

  -- runCommand, with a nil command for any other name
  unfoldable pub run_command : Bytes → Action W
  unfolding equal
  run_command command_name = do
    cmd ←
        if equal command_name (codes "start")
        then os.new_start_command
        else if equal command_name (codes "shell")
        then os.new_shell_command
        else pure (raise panic)
    cmd

  unfoldable pub main : Arguments → Action W
  unfolding setup_config setup_logger run_command equal
  main args w =
      if equal args.command_name (codes "start") || equal args.command_name (codes "shell")
      then (do setup_config args.config_filename; setup_logger; run_command args.command_name) w
      else (ok tt, os.print_usage w)

  setup_config-missing :
      (w w' : W) (c : ℕ) (cs : Bytes)
      → os.read_in_config (os.set_config_file (c ∷ cs) (os.prepare w)) ≡ (err not_exist, w')
      → setup_config (c ∷ cs) w ≡ (ok tt, w')
  unfolding setup_config read_config
  setup_config-missing w w' c cs p =
      ap
        (λ (r : Result (Unit {0}) × W). elim r.0 [
          | ok _ ↦ (ok tt, r.1)
          | err not_exist ↦ (ok tt, r.1)
          | err e ↦ (err e, r.1)
        ])
        p

  -- A configuration file that is missing is only logged: the rest of main goes on in the world that
  -- the read has left.
  pub main-missing :
      (args : Arguments) (w w' : W) (c : ℕ) (cs : Bytes)
      → args.config_filename ≡ c ∷ cs
      → args.command_name ≡ codes "start"
      → os.read_in_config (os.set_config_file (c ∷ cs) (os.prepare w)) ≡ (err not_exist, w')
      → main args w ≡ (do setup_logger; run_command (codes "start")) w'
  unfolding main
  main-missing args w w' c cs e n p = rw (n, e, setup_config-missing w w' c cs p) refl
