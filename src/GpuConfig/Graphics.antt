-- ===== src/GpuConfig/Graphics.antt =====
-- candy/plugin-vm/libvirt_yaml_bridge.go: mapGraphics, the element that a graphics block becomes, and
-- its listeners. An attribute of the element that is the empty text is left out of the XML.
use plugin_vm.Base.{Option, none, some, List, [], ◌∷◌, String, str_eq, ◌||◌, if◌then◌else◌}
use plugin_vm.Base.Int.{ℤ}
use plugin_vm.Spec.{LibvirtGraphics, LibvirtGraphicsGl, LibvirtListener}
use plugin_vm.GpuConfig.{yes_no_or_omit}

pub data GraphicListener : Type 0 where
  on_address on_socket on_network : String → GraphicListener

-- The attributes that a vnc and a spice element share.
pub record Console : Type 0 where
  pub port : ℤ
  pub auto_port : String
  pub passwd : String
  pub keymap : String
  pub listeners : List GraphicListener

pub record GraphicGl : Type 0 where
  pub enable : String
  pub render_node : String

-- The element of each type; vnc has the address of its listener in an attribute too, and the <gl> of
-- egl-headless is a node alone. A block of another type becomes an element without content.
pub data DomainGraphic : Type 0 where
  vnc_graphic : Console → String → DomainGraphic
  spice_graphic : Console → Option GraphicGl → DomainGraphic
  rdp_graphic : ℤ → String → DomainGraphic
  sdl_graphic : DomainGraphic
  egl_headless_graphic : Option String → DomainGraphic
  dbus_graphic : String → String → Option GraphicGl → DomainGraphic
  no_graphic : DomainGraphic

-- A listener of another type is left out.
unfoldable pub build_graphics_listeners : List LibvirtListener → List GraphicListener
build_graphics_listeners [] = []
build_graphics_listeners (l ∷ rest) =
    let more = build_graphics_listeners rest in
    if str_eq l.kind "address" || str_eq l.kind ""
    then on_address l.address ∷ more
    else if str_eq l.kind "socket"
    then on_socket l.socket ∷ more
    else if str_eq l.kind "network"
    then on_network l.network ∷ more
    else more

abbrev pub console_of : LibvirtGraphics → Console
console_of g = record {
  port = g.port;
  auto_port = g.auto_port;
  passwd = g.passwd;
  keymap = g.keymap;
  listeners = build_graphics_listeners g.listen;
}

-- The address of a single listener of that kind.
unfoldable pub listen_attribute : List GraphicListener → String
listen_attribute (on_address address ∷ []) = address
listen_attribute _ = ""

abbrev pub gl_element : Option LibvirtGraphicsGl → Option GraphicGl
gl_element none = none
gl_element (some gl) =
    some record { enable = yes_no_or_omit gl.enable; render_node = gl.render_node }

abbrev pub egl_node : Option LibvirtGraphicsGl → Option String
egl_node none = none
egl_node (some gl) = if str_eq gl.render_node "" then none else some gl.render_node

-- The switch over the type.
unfoldable pub graphic_of : String → LibvirtGraphics → DomainGraphic
unfolding listen_attribute
graphic_of kind g =
    if str_eq kind "vnc"
    then vnc_graphic (console_of g) (listen_attribute (build_graphics_listeners g.listen))
    else if str_eq kind "spice"
    then spice_graphic (console_of g) (gl_element g.gl)
    else if str_eq kind "rdp"
    then rdp_graphic g.port g.auto_port
    else if str_eq kind "sdl"
    then sdl_graphic
    else if str_eq kind "egl-headless"
    then egl_headless_graphic (egl_node g.gl)
    else if str_eq kind "dbus"
    then dbus_graphic g.address (yes_no_or_omit g.p2p) (gl_element g.gl)
    else no_graphic

unfoldable pub map_graphics : LibvirtGraphics → DomainGraphic
unfolding graphic_of
map_graphics g = graphic_of g.kind g
