-- ===== src/Terminal.antt =====
-- The terminal of kernel/src/terminal.rs. Font is its module `psf`, Screen the screen of characters
-- and how it is drawn, Lines the new lines, Palette the colors, Write the escape sequences and the
-- text.
pub mod Font
pub mod Screen
pub mod Drawable
pub mod Draw
pub mod Pixels
pub mod Render
pub mod Rows
pub mod Lines
pub mod Palette
pub mod Write
pub mod Cells
mod Examples
