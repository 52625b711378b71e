-- ===== src/Cli/Failing.antt =====
-- The commands on a disk whose calls may fail (main.rs, config.rs).
use lantun.Cli.Edits.{edit}
use lantun.Cli.Effects.{run_action-Effect, saves, stays, Effect}
use lantun.Cli.Commands.{with_config, Action, main, Ran}
use lantun.Runtime.{Runtime}
use lantun.Cli.Files.{HoldsText}
use lantun.Base.{
  sym, panic, err, arith, map_err, ◌>>=◌, refl, ok, some, none, Outcome, inr, ◌≡◌, Text, inl,
  Option, Option-cases,
}
use lantun.Cli.Config.{
  message, read, create_config, empty_config, Report, Disk, LanTunConfig, load_config, save_config,
  IsCodecs, Codecs,
}

module _ (C : Codecs) (L : IsCodecs C) where
  -- After a command that succeeds the file holds the new configuration, and after one that fails
  -- the old one, unless it was a write that failed, which may leave anything.
  abbrev pub After :
      LanTunConfig
      → LanTunConfig
      → Option (Text × Option Text)
      → Outcome Report (Unit {0})
      → Disk
      → Type 0
  After c c' write_error (ok done) d = HoldsText C c' d.contents
  After c c' none r d = HoldsText C c d.contents
  After c c' (some error) r d = Unit

  -- A write into a file that holds the old configuration.
  save_config-After :
      (c c' : LanTunConfig) (d : Disk)
      → After c c' d.write_error (save_config C c' d).1 (save_config C c' d).0
  unfolding save_config
  save_config-After c c' d =
      let (s, e) = L.toml_to_string_total c' in
      elim (Option-cases d.write_error) [
        | inl f ↦ rw (e, f) (L.toml_from_str-toml_to_string c' s e)
        | inr (error, f) ↦ rw (e, f) tt
      ]

  -- What is loaded is what the file held; and an error leaves it there.
  abbrev Loaded :
      LanTunConfig → Option (Text × Option Text) → Disk × Outcome Report LanTunConfig → Type 0
  Loaded c write_error (d, ok found) =
      (found ≡ c) × HoldsText C c d.contents × (d.write_error ≡ write_error)
  Loaded c none (d, r) = HoldsText C c d.contents
  Loaded c (some error) (d, r) = Unit

  create_config-Loaded :
      (d : Disk) (mkdir : Option Text)
      → d.contents ≡ none
      → Loaded empty_config d.write_error (create_config C mkdir d)
  create_config-Loaded d (some m) e = elim (Option-cases d.write_error) [
    | inl f ↦ rw (f, e) refl
    | inr (error, f) ↦ rw f tt
  ]
  create_config-Loaded d none e =
      let (s, saved) = L.toml_to_string_total empty_config in
      elim (Option-cases d.write_error) [
        | inl f ↦ rw (saved, f) (refl, L.toml_from_str-toml_to_string empty_config s saved, refl)
        | inr (error, f) ↦ rw (saved, f) tt
      ]

  load_config-missing :
      (d : Disk) → d.contents ≡ none → load_config C d ≡ create_config C d.mkdir_error d
  unfolding load_config
  load_config-missing d e = ground arith

  load_config-there :
      (d : Disk) (s : Text)
      → d.contents ≡ some s
      → load_config C d ≡ (d, do t ← read s d; map_err message (C.toml_from_str t))
  unfolding load_config
  load_config-there d s e = ground arith

  load_config-Loaded :
      (c : LanTunConfig) (d : Disk) (o : Option Text)
      → d.contents ≡ o
      → HoldsText C c o
      → Loaded c d.write_error (load_config C d)
  load_config-Loaded c d none e h =
      rw (load_config-missing d e, h) (create_config-Loaded d d.mkdir_error e)
  load_config-Loaded c d (some s) e h =
      rw (load_config-there d s e) (elim (Option-cases d.read_error) [
        | inl f ↦ rw (f, h) (refl, rw e h, refl)
        | inr (error, f) ↦ elim (Option-cases d.write_error) [
          | inl g ↦ rw (f, g, e) h
          | inr (torn, g) ↦ rw (f, g) tt
        ]
      ])

module _ (C : Codecs) (L : IsCodecs C) (R : Runtime) where
  kept-After :
      (c : LanTunConfig) (f : Option (Text × Option Text)) (r : Outcome Report (Unit {0}))
      (d : Disk)
      → HoldsText C c d.contents
      → After C L c c f r d
  kept-After c f (ok done) d h = h
  kept-After c none (err e) d h = h
  kept-After c none panic d h = h
  kept-After c (some error) (err e) d h = tt
  kept-After c (some error) panic d h = tt

  Effect-After :
      {r : Outcome Report (Unit {0})} {c c' : LanTunConfig} {d : Disk} {x : Ran}
      → Effect C R r c c' d x
      → HoldsText C c d.contents
      → After C L c c' d.write_error x.result x.disk
  Effect-After {r} {c} {d} (stays same disk result) h =
      rw (disk, result, same) (kept-After c d.write_error r d h)
  Effect-After {c} {c'} {d} (saves before after result run) h =
      rw run (save_config-After C L c c' d)

  Loaded-After :
      (key : R.SecretKey) (action : Action) (c : LanTunConfig) (f : Option (Text × Option Text))
      (p : Disk × Outcome Report LanTunConfig)
      → Loaded C L c f p
      → let ran = with_config C R key action p in
        After C L c (edit C R key action c) f ran.result ran.disk
  Loaded-After key action c f (d, ok found) (same, held, unchanged) =
      rw (same, sym unchanged) (Effect-After (run_action-Effect C R key action c d) held)
  Loaded-After key action c none (d, err e) h = h
  Loaded-After key action c none (d, panic) h = h
  Loaded-After key action c (some error) (d, err e) h = tt
  Loaded-After key action c (some error) (d, panic) h = tt

  -- With codecs that meet their laws, whatever call to the disk fails: if the file holds a
  -- configuration, or there is none for the empty one, a command that succeeds leaves the edited
  -- configuration there, and one that does not succeed leaves the old one, unless the disk fails
  -- to write, where it may leave anything.
  pub main-After :
      (key : R.SecretKey) (action : Action) (c : LanTunConfig) (d : Disk)
      → HoldsText C c d.contents
      → let ran = main C R key action d in
        After C L c (edit C R key action c) d.write_error ran.result ran.disk
  unfolding main
  main-After key action c d h =
      Loaded-After key action c d.write_error (load_config C d)
        (load_config-Loaded C L c d d.contents refl h)
