-- ===== src/View.antt =====
-- rdp-view-item.h: class `RdpViewItem`, the item that shows the session, takes the user's input, and
-- exchanges the clipboard with the channel.
pub mod Mouse
pub mod Keyboard
pub mod Dib
pub mod Show
pub mod Local
mod Tests
