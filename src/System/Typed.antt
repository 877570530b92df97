-- ===== src/System/Typed.antt =====
-- A keyword from the line that a user types to the photo of the peer: the menu of client.c,
-- `gallery_add_keyword` of library.c and `add_keyword` of peer.c.
use psis_project.Heap.{Heap}
use psis_project.Cells.{Cells}
use psis_project.Text.{Text}
use psis_project.Peer
use psis_project.Ring
use psis_project.Peer.{Peer, insert_keyword}
use psis_project.Client.{Client}
