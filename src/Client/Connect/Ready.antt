-- ===== src/Client/Connect/Ready.antt =====
-- What holds when the callbacks of a connection have all returned TRUE.
use qfreerdp.Base.{ℕ, ◌≡◌, Bool, true, false, ◌⊎◌, List, Option, some}
use qfreerdp.Status.{Rc}
use qfreerdp.Entry.Types.{Text}
use qfreerdp.Entry.Batch.{has_path}
use qfreerdp.Client.Connect.{
  desktop_width, desktop_height, redirect_clipboard, number, flag, get, Instance, cliprdr,
  my_pre_connect, my_load_channels, my_post_connect, Callbacks, set_callbacks,
}

-- PreConnect, LoadChannels and PostConnect one behind the other, each if the one before returned TRUE, as
-- freerdp_connect calls them.
abbrev pub then_do : Bool × Instance → (Instance → Bool × Instance) → Bool × Instance
then_do (false, i) f = (false, i)
then_do (true, i) f = f i

abbrev pub connecting :
    ℕ
    → ℕ
    → ℕ
    → ℕ
    → (List Text → Option (List Text))
    → Rc
    → Bool
    → (Callbacks → Bool × Callbacks)
    → Instance
    → Bool × Instance
connecting ignore mask w h add load_rc known gdi_init i =
    then_do (then_do (my_pre_connect ignore mask w h i) (my_load_channels add load_rc known))
      (my_post_connect gdi_init)

-- The state behind a connection, with what FreeRDP's drawing has made of the client's callbacks.
pub record IsReady (w h : ℕ) (drawn : Callbacks) (i : Instance) : Type 0 where
  pub width : get desktop_width i.settings ≡ some (number w)
  pub height : get desktop_height i.settings ≡ some (number h)
  pub clipboard : get redirect_clipboard i.settings ≡ some (flag true)
  pub listed : has_path cliprdr i.channels ≡ true
  pub loaded : i.add_in_loaded ≡ true
  pub told : i.tells_channels ≡ true
  pub paints : i.update ≡ drawn
  pub shown : i.item_has_context ≡ true

module _ (add : List Text → Option (List Text)) (rc : Rc) (i : Instance) where
  -- What a load leaves: the channel is in the collection and the add-in loaded, where a channel that was
  -- there is not added again; or the item is as it was.
  abbrev pub Loads : Bool × Instance → Type 0
  Loads (true, t) =
      (cs : List Text) × (has_path cliprdr cs ≡ true)
      × (t ≡ record i { channels = cs; add_in_loaded = true })
      × ((has_path cliprdr i.channels ≡ false) ⊎ (cs ≡ i.channels))
  Loads (false, t) = t.item_has_context ≡ i.item_has_context

-- What the callbacks leave, when all returned TRUE, and when one did not.
abbrev pub Connects : ℕ → ℕ → (Callbacks → Bool × Callbacks) → Instance → Bool × Instance → Type 0
Connects w h gdi_init i (true, t) =
    IsReady w h (gdi_init (set_callbacks i.update)).1 t
    × ((has_path cliprdr i.channels ≡ false) ⊎ (t.channels ≡ i.channels))
Connects w h gdi_init i (false, t) = t.item_has_context ≡ i.item_has_context
