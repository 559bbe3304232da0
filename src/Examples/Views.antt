-- ===== src/Examples/Views.antt =====
-- What frontend/src/main.tsx shows, prints, sends and asks, at concrete inputs.
use channel_wire.Prelude.{
  ℕ_discrete, ◌++◌, String, true, false, not, ◌&&◌, ◌||◌, none, List, [], ◌∷◌, ◌≡◌, refl,
  slice_last-nil, sym,
}
use channel_wire.Text.{all_chars, is_space, join_spaces}
use channel_wire.Types.{Command, status}
use channel_wire.World.{World}
use channel_wire.Log.{plain}
use channel_wire.Log.Journal
use channel_wire.Connection.{logout}
use channel_wire.Commands.{send_chat}
use channel_wire.Commands.Typed
use channel_wire.Loop.{Event, run}
use channel_wire.Loop.Settle.{responded}
use channel_wire.Loop.Start.{start}
use channel_wire.Loop.Controls.{Control, is_offered}
use channel_wire.View.Node.{offers}
use channel_wire.View.App.{render}
use channel_wire.View.Offered
use channel_wire.View.Private
use channel_wire.Examples.Platform.{marked}
use channel_wire.Examples.Runs.{story, stamp, blank}
use channel_wire.Examples.Pages.{busy}

offers-render_example :
    offers Control.join_form (render false busy.page)
    ≡ (is_offered Control.join_form busy && (false || not (Offered.is_dev Control.join_form)))
offers-render_example = Offered.offers-render false Control.join_form busy

logout-forgotten_example :
    let w =
      run
        (Event.settled 5 (responded 200) ∷ [])
        (logout (run story (start marked 1000 stamp none))) in
    render true w.page ≡ render true (Private.forgotten w.page)
logout-forgotten_example =
    Private.logout-forgotten true marked 1000 stamp none story
      (Event.settled 5 (responded 200) ∷ []) refl

abbrev empty_journal : Journal.Journal
empty_journal = record { lines = []; samples = []; drawn = 0 }

abbrev entries : List Journal.Entry
entries =
    Journal.pushed (plain status "Connected to ChannelWire.")
    ∷ Journal.helped
    ∷ Journal.cleared
    ∷ []

blank-Shows : Journal.Shows stamp empty_journal blank
blank-Shows = record {
  lines = sym (slice_last-nil 80);
  samples = sym (slice_last-nil 30);
  drawn = refl;
  clock = refl;
}

perform_all-Shows_example :
    Journal.Shows stamp
      (Journal.keep stamp entries empty_journal)
      (Journal.perform_all entries blank)
perform_all-Shows_example = Journal.perform_all-Shows stamp entries empty_journal blank blank-Shows

abbrev direct_words : List String
direct_words = "/dm" ∷ "bob" ∷ "see" ∷ "you" ∷ []

abbrev composing : World
composing = record busy { page = record busy.page { message = join_spaces direct_words } }

Typed-Sends_example :
    ((send_chat composing).browser.sockets 0).sent
    ≡ (composing.browser.sockets 0).sent ++ Command.dm "bob" (join_spaces ("see" ∷ "you" ∷ [])) ∷ []
unfolding all_chars is_space ℕ_discrete
Typed-Sends_example =
    Typed.Typed-Sends 0 composing refl refl (Command.dm "bob" (join_spaces ("see" ∷ "you" ∷ [])))
      direct_words (Typed.dm "bob" "see" ("you" ∷ []))
      ((refl, refl), ((refl, refl), ((refl, refl), ((refl, refl), tt)))) refl
