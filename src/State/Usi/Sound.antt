-- ===== src/State/Usi/Sound.antt =====
-- Only the printed text of a move parses to it.
use attic_shogi.Prelude.{◌≡◌, some}
use attic_shogi.State.Piece.{Piece}
use attic_shogi.State.Square.{Square}
use attic_shogi.State.Move.{Move}
use attic_shogi.State.Position.Types.{Position}
use attic_shogi.State.Usi.Parser.{Text}
use attic_shogi.State.Usi.Printer.{format_usi_move}
use attic_shogi.State.Usi.RoundTrip.{Encodes}

module _ {Info : Type 0} where
  abbrev pub Named : Position Info → Text → Move → Type 0
  Named pos t m = Encodes pos m × (format_usi_move m ≡ some t)
